-- ===== src/Telegram/Send/Sent.antt =====
-- What telegram answers to the messages that `sendMessage` of kh_common/telegram/__init__.py sends.
use mathlib.Core.Path.{subst}
use kh_common.Prelude.{
  ℕ, zero, suc, ◌≡◌, ◌<◌, refl, ap, ◌⊎◌, inl, inr, Option, some, List, [], ◌∷◌, ◌++◌, Bool, true,
  false, Bool-cases,
}
use kh_common.Prelude.Text.{Text}
use kh_common.Telegram.Split.Chunks.{IsSplit, split_message_lem}
use kh_common.Telegram.Send.{
  Reply, accepted, rejected, failed, Body, after_post, send_loop, send_single, markup_of, send_all,
  bodies_of, send_message,
}

module _ {World Markup : Type 0} (post : Body Markup → World → Reply × World) where
  -- Requests with one body, at most so many: all but the last failed, and `ok` is whether that one was
  -- accepted; it was rejected where it was not, unless all failed.
  pub data Posted (body : Body Markup) : ℕ → Bool → World → World → Type 0 where
    given_up : {w : World} → Posted body 0 false w w
    was_accepted :
        {left : ℕ} {w : World}
        → (post body w).0 ≡ accepted
        → Posted body (suc left) true w (post body w).1
    was_rejected :
        {left : ℕ} {w : World}
        → (post body w).0 ≡ rejected
        → Posted body (suc left) false w (post body w).1
    again :
        {left : ℕ} {ok : Bool} {w v : World}
        → (post body w).0 ≡ failed
        → Posted body left ok (post body w).1 v
        → Posted body (suc left) ok w v

  after_post-Posted :
      (left : ℕ) (body : Body Markup) (w : World) (reply : Reply) (rest : Bool × World)
      → (post body w).0 ≡ reply
      → Posted body left rest.0 (post body w).1 rest.1
      → Posted body
          (suc left)
          (after_post post rest reply (post body w).1).0
          w
          (after_post post rest reply (post body w).1).1
  unfolding after_post
  after_post-Posted left body w accepted rest e p = was_accepted e
  after_post-Posted left body w rejected rest e p = was_rejected e
  after_post-Posted left body w failed rest e p = again e p

  send_loop-Posted :
      (left : ℕ) (body : Body Markup) (w : World)
      → Posted body left (send_loop post left body w).0 w (send_loop post left body w).1
  unfolding send_loop
  send_loop-Posted zero body w = given_up
  send_loop-Posted (suc left) body w =
      after_post-Posted left body w (post body w).0 _ refl
        (send_loop-Posted left body (post body w).1)

  -- One body after the other, each posted at most five times until it is accepted: the bodies that
  -- telegram accepted, in order.
  pub data Accepted : List (Body Markup) → World → World → Type 0 where
    none_left : {w : World} → Accepted [] w w
    and_accepted :
        {body : Body Markup} {bodies : List (Body Markup)} {w v u : World}
        → Posted body 5 true w v
        → Accepted bodies v u
        → Accepted (body ∷ bodies) w u

  -- The bodies of all messages were accepted; or those of the first were, and the next was not, after
  -- which nothing was posted.
  pub data Ended (all : List (Body Markup)) (w v : World) : Bool → Type 0 where
    all_accepted : Accepted all w v → Ended all w v true
    not_accepted :
        (sent : List (Body Markup)) (body : Body Markup) (rest : List (Body Markup)) (u : World)
        → all ≡ sent ++ body ∷ rest
        → Accepted sent w u
        → Posted body 5 false u v
        → Ended all w v false

  Ended-cons :
      (body : Body Markup) (all : List (Body Markup)) (w v u : World) (result : Bool)
      → Posted body 5 true w v
      → Ended all v u result
      → Ended (body ∷ all) w u result
  Ended-cons body all w v u true p (all_accepted a) = all_accepted (and_accepted p a)
  Ended-cons body all w v u false p (not_accepted sent next rest x e a n) =
      not_accepted (body ∷ sent) next rest x (ap (λ b. body ∷ b) e) (and_accepted p a) n

  send_all-Ended :
      (markup : Option Markup) (messages : List Text) (w : World)
      → Ended
          (bodies_of post markup messages)
          w
          (send_all post markup messages true w).1
          (send_all post markup messages true w).0
  unfolding send_all send_single
  send_all-Ended markup [] w = all_accepted none_left
  send_all-Ended markup (m ∷ more) w =
      let body : Body Markup = record { text = m; reply_markup = markup_of post markup more } in
      let r = send_single post body w in
      let p : Posted body 5 r.0 w r.1 = send_loop-Posted 5 body w in
      elim (Bool-cases r.0) [
        | inl yes_ ↦
            rw (yes_, send_all)
              (Ended-cons body (bodies_of post markup more) w r.1 _ _
                (subst (λ b. Posted body 5 b w r.1) yes_ p) (send_all-Ended markup more r.1))
        | inr no_ ↦
            rw (no_, send_all)
              (not_accepted [] body (bodies_of post markup more) w refl none_left
                (subst (λ b. Posted body 5 b w r.1) no_ p))
      ]

  -- What `sendMessage` does with the messages of the text: without any, nothing is posted.
  abbrev pub Result : List (Body Markup) → World → World → Bool → Type 0
  Result all w v result = ((all ≡ []) × (w ≡ v) × (result ≡ false)) ⊎ Ended all w v result

  send_all-Result :
      (markup : Option Markup) (messages : List Text) (w : World)
      → Result
          (bodies_of post markup messages)
          w
          (send_all post markup messages false w).1
          (send_all post markup messages false w).0
  unfolding send_all
  send_all-Result markup [] w = inl (refl, refl, refl)
  send_all-Result markup (m ∷ more) w = inr (send_all-Ended markup (m ∷ more) w)

  -- With a positive limit `sendMessage` ends, whatever telegram answers. The text is split into messages
  -- no longer than the limit, as by `splitMessage`, with the markup for the last alone. Each is posted
  -- at most five times, and again only after a failure, until telegram accepts it, and the next one
  -- only then; it returns True exactly if there are messages and telegram accepted them all, and after
  -- one that was not accepted nothing is posted any more.
  pub send_message-IsSent :
      (limit : ℕ) (breaks : List Text) (markup : Option Markup) (text : Text) (w : World)
      → 0 < limit
      → (messages : List Text) × (result : Bool) × (w' : World) × (send_message post limit breaks
            markup text w
          ≡ some (result, w'))
        × IsSplit limit breaks text messages
        × Result (bodies_of post markup messages) w w' result
  unfolding send_message
  send_message-IsSent limit breaks markup text w h =
      let (messages, e, s) = split_message_lem limit breaks text h in
      let r = send_all post markup messages false w in
      (messages, r.0, r.1, rw (e, send_message) refl, s, send_all-Result markup messages w)
