-- ===== src/Telegram/Send.antt =====
-- `sendMessage` and `_sendSingleMessage` of kh_common/telegram/__init__.py. The request to telegram is
-- a parameter, which changes an unknown state of the outside world; logging is left out.
pub mod Sent
use kh_common.Prelude.{
  ℕ, zero, suc, Option, none, some, List, [], ◌∷◌, Bool, true, false, if◌then◌else◌,
}
use kh_common.Prelude.Text.{Text}
use kh_common.Telegram.Split.{split_message}

-- `info['ok']` of the answer, or an exception
pub data Reply : Type 0 where
  accepted rejected failed : Reply

-- The fields of the body that depend on the message.
pub record Body (Markup : Type 0) : Type 0 where
  pub text : Text
  pub reply_markup : Option Markup

module _ {World Markup : Type 0} (post : Body Markup → World → Reply × World) where
  -- What follows an answer; `again` is the rest of the loop.
  unfoldable pub after_post : Bool × World → Reply → World → Bool × World
  after_post again accepted w = (true, w)
  after_post again rejected w = (false, w)
  after_post again failed w = again

  -- `for _ in range(5)`, with the rounds left
  unfoldable pub send_loop : ℕ → Body Markup → World → Bool × World
  unfolding after_post
  send_loop zero body w = (false, w)
  send_loop (suc left) body w =
      let (reply, w') = post body w in after_post (send_loop left body w') reply w'

  unfoldable pub send_single : Body Markup → World → Bool × World
  unfolding send_loop
  send_single body w = send_loop 5 body w

  -- The markup goes with the last message alone.
  abbrev pub markup_of : Option Markup → List Text → Option Markup
  markup_of markup [] = markup
  markup_of markup (m ∷ more) = none

  -- The loop of `sendMessage`
  unfoldable pub send_all : Option Markup → List Text → Bool → World → Bool × World
  unfolding send_single
  send_all markup [] success w = (success, w)
  send_all markup (m ∷ more) success w =
      let body : Body Markup = record { text = m; reply_markup = markup_of markup more } in
      let (sent, w') = send_single body w in
      let rest = send_all markup more true w' in if sent then rest else (false, w')

  -- The bodies of all messages.
  abbrev pub bodies_of : Option Markup → List Text → List (Body Markup)
  bodies_of markup [] = []
  bodies_of markup (m ∷ more) =
      record { text = m; reply_markup = markup_of markup more } ∷ bodies_of markup more

  -- `sendMessage`; `none` is the fuel of the splitting running out.
  unfoldable pub send_message : ℕ → List Text → Option Markup → Text → World → Option (Bool × World)
  unfolding send_all
  send_message limit breaks markup text w = elim (split_message limit breaks text) [
    | none ↦ none
    | some messages ↦ some (send_all markup messages false w)
  ]
