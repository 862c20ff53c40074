-- ===== src/MessageQueue/Acknowledged.antt =====
-- No message is acknowledged that the consumer was not given.
use mathlib.Core.Path.{subst}
use kh_common.Prelude.{
  ℕ, ◌≤◌, ◌<◌, ◌≡◌, refl, sym, ◌⊎◌, inl, inr, Option, none, some, List, [], ◌∷◌, Bool, true, false,
  leb, Bool-cases, arith,
}
use kh_common.Prelude.Text.{Text}
use kh_common.MessageQueue.{
  Delivery, message, stopped_at, timeout, crash, Broker, Consumed, Received, greater, consume,
  acknowledge, finish, after_declare, after_connect, recv,
}

-- The tag of one of the messages.
abbrev pub IsTag : ℕ → List (ℕ × Text) → Type 0
IsTag tag [] = ⊥
IsTag tag (m ∷ ms) = (m.0 ≡ tag) ⊎ IsTag tag ms

-- Every message has a tag of at most this.
abbrev pub UpTo : ℕ → List (ℕ × Text) → Type 0
UpTo tag [] = Unit
UpTo tag (m ∷ ms) = (m.0 ≤ tag) × UpTo tag ms

abbrev From : Option ℕ → ℕ → Type 0
From none tag = ⊥
From (some ack) tag = ack ≡ tag

abbrev Below : Option ℕ → ℕ → Type 0
Below none tag = Unit
Below (some ack) tag = ack ≤ tag

greater-le : (ack : Option ℕ) (t tag : ℕ) → greater ack t ≤ tag → Below ack tag × (t ≤ tag)
unfolding greater
greater-le none t tag h = (tt, h)
greater-le (some a) t tag h = (ground arith, ground arith)

greater-From : (ack : Option ℕ) (t tag : ℕ) → greater ack t ≡ tag → From ack tag ⊎ (t ≡ tag)
unfolding greater
greater-From none t tag h = inr h
greater-From (some a) t tag h = elim (Bool-cases (leb a t)) [
  | inl p ↦ let h' : t ≡ tag = rw p at h in inr h'
  | inr p ↦ let h' : a ≡ tag = rw p at h in inl h'
]

ended-ack :
    (ack : Option ℕ) (tag : ℕ) → ack ≡ some tag → (From ack tag ⊎ ⊥) × Below ack tag × Unit {0}
ended-ack none tag h = cc
ended-ack (some a) tag h = let e : a ≡ tag = cc in (inl e, omega arith, tt)

-- The greatest tag: it is that of a message, and no message has a greater one.
consume-ack :
    (ack : Option ℕ) (ds : List Delivery) (tag : ℕ)
    → (consume ack ds).completed ≡ true
    → (consume ack ds).ack ≡ some tag
    → (From ack tag ⊎ IsTag tag (consume ack ds).yielded)
      × Below ack tag
      × UpTo tag (consume ack ds).yielded
unfolding consume
consume-ack ack [] tag c h = ended-ack ack tag h
consume-ack ack (timeout ∷ ds) tag c h = ended-ack ack tag h
consume-ack ack (crash ∷ ds) tag c h = cc
consume-ack ack (message t [] ∷ ds) tag c h = ended-ack ack tag h
consume-ack ack (message t (x ∷ body) ∷ ds) tag c h =
    let (a, b, d) = consume-ack (some (greater ack t)) ds tag c h in
    let (e, f) = greater-le ack t tag b in
    (
      (elim a [
        | inl g ↦ (elim (greater-From ack t tag g) [ inl i ↦ inl i | inr i ↦ inr (inl i) ])
        | inr g ↦ inr (inr g)
      ]),
      e,
      (f, d),
    )
consume-ack ack (stopped_at t [] ∷ ds) tag c h = ended-ack ack tag h
consume-ack ack (stopped_at t (x ∷ body) ∷ ds) tag c h = cc

acknowledge-some :
    (broker : Broker) (ack : Option ℕ) (tag : ℕ)
    → (acknowledge broker ack).0 ≡ some tag
    → ack ≡ some tag
unfolding acknowledge
acknowledge-some broker none tag h = cc
acknowledge-some broker (some t) tag h = elim (Bool-cases broker.acks) [
  | inl p ↦ let h' : some t ≡ some tag = rw p at h in h'
  | inr p ↦ let h' : none ≡ some tag = rw p at h in cc
]

finish-acked :
    (broker : Broker) (c : Consumed) (tag : ℕ)
    → (finish broker c).acked ≡ some tag
    → (c.completed ≡ true) × (c.ack ≡ some tag)
unfolding finish
finish-acked broker c tag h = elim (Bool-cases c.completed) [
  | inl p ↦
      let h' : (acknowledge broker c.ack).0 ≡ some tag = rw p at h in
      (p, acknowledge-some broker c.ack tag h')
  | inr p ↦ let h' : none ≡ some tag = rw p at h in cc
]

-- The acknowledged tag belongs to the messages that were given.
abbrev Covers : Broker → Received → ℕ → Type 0
Covers broker r tag =
    IsTag tag r.yielded × UpTo tag r.yielded × ((consume none broker.deliveries).completed ≡ true)

after_declare-acked :
    (broker : Broker) (b : Bool) (tag : ℕ)
    → (after_declare broker b).acked ≡ some tag
    → Covers broker (after_declare broker b) tag
unfolding after_declare finish
after_declare-acked broker true tag h =
    let (c, d) = finish-acked broker (consume none broker.deliveries) tag h in
    let (e, f, g) = consume-ack none broker.deliveries tag c d in
    ((elim e [ inl i ↦ absurd i | inr i ↦ i ]), g, c)
after_declare-acked broker false tag h = cc

after_connect-acked :
    (broker : Broker) (b : Bool) (tag : ℕ)
    → (after_connect broker b).acked ≡ some tag
    → Covers broker (after_connect broker b) tag
unfolding after_connect
after_connect-acked broker true tag h = after_declare-acked broker broker.declares tag h
after_connect-acked broker false tag h = cc

-- The tag of a message that the broker delivered.
abbrev pub IsDelivered : ℕ → List Delivery → Type 0
IsDelivered t [] = ⊥
IsDelivered t (message tag body ∷ ds) = (tag ≡ t) ⊎ IsDelivered t ds
IsDelivered t (stopped_at tag body ∷ ds) = (tag ≡ t) ⊎ IsDelivered t ds
IsDelivered t (timeout ∷ ds) = IsDelivered t ds
IsDelivered t (crash ∷ ds) = IsDelivered t ds

-- The broker counts the tags of a channel up.
abbrev pub Ascending : ℕ → List Delivery → Type 0
Ascending low [] = Unit
Ascending low (message tag body ∷ ds) = (low < tag) × Ascending tag ds
Ascending low (stopped_at tag body ∷ ds) = (low < tag) × Ascending tag ds
Ascending low (timeout ∷ ds) = Ascending low ds
Ascending low (crash ∷ ds) = Ascending low ds

above : (low t : ℕ) (ds : List Delivery) → Ascending low ds → IsDelivered t ds → low < t
above low t [] a d = absurd d
above low t (message tag body ∷ ds) a (inl e) = omega (arith, a.0)
above low t (message tag body ∷ ds) a (inr d) = omega (arith, a.0, above tag t ds a.1 d)
above low t (stopped_at tag body ∷ ds) a (inl e) = omega (arith, a.0)
above low t (stopped_at tag body ∷ ds) a (inr d) = omega (arith, a.0, above tag t ds a.1 d)
above low t (timeout ∷ ds) a d = above low t ds a d
above low t (crash ∷ ds) a d = above low t ds a d

-- The greatest tag so far, below which none is delivered any more
abbrev lowest : Option ℕ → ℕ
lowest none = 0
lowest (some ack) = ack

greater_above : (ack : Option ℕ) (t : ℕ) → lowest ack < t → greater ack t ≡ t
unfolding greater
greater_above none t h = refl
greater_above (some a) t h = ground arith

ended_at :
    (ack : Option ℕ) (ds : List Delivery) (tag t : ℕ)
    → ack ≡ some tag
    → Ascending (lowest ack) ds
    → IsDelivered t ds
    → t ≤ tag
    → ⊥
ended_at none ds tag t e a d l = cc
ended_at (some x) ds tag t e a d l = let q : x ≡ tag = cc in omega (arith, above x t ds a d)

-- A message that is acknowledged was yielded.
consume-yields :
    (ack : Option ℕ) (ds : List Delivery) (tag t : ℕ)
    → (consume ack ds).completed ≡ true
    → (consume ack ds).ack ≡ some tag
    → Ascending (lowest ack) ds
    → IsDelivered t ds
    → t ≤ tag
    → IsTag t (consume ack ds).yielded
unfolding consume
consume-yields ack [] tag t c h a d l = absurd d
consume-yields ack (timeout ∷ ds) tag t c h a d l = absurd (ended_at ack ds tag t h a d l)
consume-yields ack (crash ∷ ds) tag t c h a d l = cc
consume-yields ack (message u [] ∷ ds) tag t c h a d l =
    absurd (ended_at ack (message u [] ∷ ds) tag t h a d l)
consume-yields ack (message u (x ∷ body) ∷ ds) tag t c h a (inl e) l = inl e
consume-yields ack (message u (x ∷ body) ∷ ds) tag t c h a (inr d) l =
    inr (consume-yields (some (greater ack u)) ds tag t c h (rw (greater_above ack u a.0) a.1) d l)
consume-yields ack (stopped_at u [] ∷ ds) tag t c h a d l =
    absurd (ended_at ack (stopped_at u [] ∷ ds) tag t h a d l)
consume-yields ack (stopped_at u (x ∷ body) ∷ ds) tag t c h a d l = cc

-- What reached the consumer where something was acknowledged
after_declare-consumed :
    (broker : Broker) (b : Bool) (tag : ℕ)
    → (after_declare broker b).acked ≡ some tag
    → ((consume none broker.deliveries).ack ≡ some tag)
      × ((after_declare broker b).yielded ≡ (consume none broker.deliveries).yielded)
unfolding after_declare finish
after_declare-consumed broker true tag h =
    ((finish-acked broker (consume none broker.deliveries) tag h).1, refl)
after_declare-consumed broker false tag h = cc

after_connect-consumed :
    (broker : Broker) (b : Bool) (tag : ℕ)
    → (after_connect broker b).acked ≡ some tag
    → ((consume none broker.deliveries).ack ≡ some tag)
      × ((after_connect broker b).yielded ≡ (consume none broker.deliveries).yielded)
unfolding after_connect
after_connect-consumed broker true tag h = after_declare-consumed broker broker.declares tag h
after_connect-consumed broker false tag h = cc

-- If the broker counts its tags up, then where `_recv` acknowledges up to a tag, every message
-- delivered with that tag or a smaller one was given to the consumer; the tag is that of a message
-- that was given, none that was given has a greater one, and the consumer took them all without an
-- exception.
pub recv-acked :
    (broker : Broker) (tag : ℕ)
    → Ascending 0 broker.deliveries
    → (recv broker).acked ≡ some tag
    → ((t : ℕ) → IsDelivered t broker.deliveries → t ≤ tag → IsTag t (recv broker).yielded)
      × IsTag tag (recv broker).yielded
      × UpTo tag (recv broker).yielded
      × ((consume none broker.deliveries).completed ≡ true)
unfolding recv
recv-acked broker tag a h =
    let (is_tag, up_to, completed) = after_connect-acked broker broker.connects tag h in
    let (acked, same) = after_connect-consumed broker broker.connects tag h in
    (
      λ t d l.
          subst (IsTag t) (sym same)
            (consume-yields none broker.deliveries tag t completed acked a d l),
      is_tag,
      up_to,
      completed,
    )
