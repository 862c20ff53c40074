-- ===== src/Email.antt =====
-- kh_common/email.py: the texts of an email, and the requests that send it. The mail service is a
-- parameter; waiting times are kept as a list.
pub mod Sending
use kh_common.Prelude.{
  ℕ, zero, suc, ◌+◌, Option, none, some, List, [], ◌∷◌, ◌++◌, Bool, true, false,
}
use kh_common.Prelude.Outcome.{Outcome, returned, raised}
use kh_common.Prelude.Dict
use kh_common.Prelude.Dict.{Dict}
use kh_common.Prelude.Text.{Text, Text-discrete, codes}

pub record Button : Type 0 where
  pub link : Text
  pub text : Text

-- `if text:` around a value that depends on it
abbrev pub when_set : Option Text → (Text → Text) → Text → Text
when_set none f other = other
when_set (some []) f other = other
when_set (some (c ∷ text)) f other = f (c ∷ text)

abbrev pub with_button : Option Button → (Button → Text) → Text → Text
with_button none f other = other
with_button (some b) f other = f b

-- `formatHtml`. `style` is `_html_template_1`, which is put before the filled template as it is.
unfoldable pub format_html : Text → Text → Option Text → Option Button → Option Text → Text
format_html style text title button subtext =
    style
    ++ (codes "<!-- ♀ --><body><div id='content'><main id='feature'>"
        ++ (when_set title (λ t. codes "<h1>" ++ (t ++ codes "</h1>")) []
            ++ (codes "<p>"
                ++ (text
                    ++ (codes "</p>"
                        ++ (with_button button
                              (λ b.
                                codes "<a class='button' href='"
                                ++ (b.link ++ (codes "'>" ++ (b.text ++ codes "</a>"))))
                              []
                            ++ (when_set subtext
                                  (λ s. codes "<p class='subtext'>" ++ (s ++ codes "</p>")) []
                                ++ codes "</main></div></body></html>")))))))

-- `formatText`, one `if` after another
unfoldable pub format_text : Text → Option Text → Option Button → Option Text → Text
format_text text title button subtext =
    let titled = when_set title (λ t. t ++ (codes "\n\n" ++ text)) text in
    let linked =
      with_button button (λ b. titled ++ (codes "\n\n" ++ (b.text ++ (codes ": " ++ b.link))))
        titled in
    when_set subtext (λ s. linked ++ (codes "\n\n" ++ s)) linked

pub record Email : Type 0 where
  pub to : Text
  pub subject : Text
  pub text : Text
  pub title : Option Text
  pub button : Option Button
  pub subtext : Option Text
  pub sender : Text
  pub cc_ : Option Text
  pub bcc : Option Text

-- `if cc: payload['cc'] = cc`
abbrev pub add_copy : Text → Option Text → Dict Text Text → Dict Text Text
add_copy key none payload = payload
add_copy key (some []) payload = payload
add_copy key (some (c ∷ text)) payload = Dict.set Text-discrete key (c ∷ text) payload

unfoldable pub payload_of : Text → Email → Dict Text Text
unfolding format_html format_text
payload_of style email = add_copy (codes "bcc") email.bcc (
    add_copy (codes "cc") email.cc_ (
      (codes "from", email.sender)
      ∷ (codes "to", email.to)
      ∷ (codes "subject", email.subject)
      ∷ (codes "text", format_text email.text email.title email.button email.subtext)
      ∷ (codes "html", format_html style email.text email.title email.button email.subtext)
      ∷ []))

-- The error that is raised, with what `logger.critical` is given.
pub record EmailError : Type 0 where
  pub message : Text
  pub to : Text
  pub subject : Text
  pub refid : Text

-- What the rounds of `sendEmail` did: whether one was accepted, the payloads that were sent, the
-- seconds that were waited, and the world after them.
pub record Sent (World : Type 0) : Type 0 where
  pub accepted : Bool
  pub payloads : List (Dict Text Text)
  pub waits : List ℕ
  pub world : World

-- `return True`, or the next rounds after a wait
unfoldable pub after_request :
    {World : Type 0} → Bool → ℕ → Dict Text Text → World → Sent World → Sent World
after_request true i payload w rest = record {
  accepted = true;
  payloads = payload ∷ [];
  waits = [];
  world = w;
}
after_request false i payload w rest = record rest {
  payloads = payload ∷ rest.payloads;
  waits = i ∷ rest.waits;
}

-- What the caller is given; `fresh` is what `uuid4()` gives.
unfoldable pub outcome_of : Text → Email → Bool → Outcome EmailError Bool
outcome_of fresh email true = returned true
outcome_of fresh email false = raised (record {
  message = codes "failed to send email.";
  to = email.to;
  subject = email.subject;
  refid = fresh;
})

-- The mail service: whether a request returns without an exception, and what becomes of the world.
module _ {World : Type 0} (request : Dict Text Text → World → Bool × World) where
  -- `for i in range(5)`, with the number of rounds that are left and `i`
  unfoldable pub send_loop : ℕ → ℕ → Dict Text Text → World → Sent World
  unfolding after_request
  send_loop zero i payload w = record { accepted = false; payloads = []; waits = []; world = w }
  send_loop (suc rounds) i payload w =
      let (ok, w') = request payload w in
      let rest = send_loop rounds (suc i) payload w' in after_request ok i payload w' rest

  unfoldable pub send_email : Text → Text → Email → World → Outcome EmailError Bool × Sent World
  unfolding send_loop payload_of outcome_of
  send_email style fresh email w =
      let s = send_loop 5 0 (payload_of style email) w in (outcome_of fresh email s.accepted, s)
