-- ===== src/Tests/Messages.antt =====
-- kh_common/email.py, message_queue.py and the bytes of kh_common/utilities/__init__.py at concrete
-- inputs.
use kh_common.Prelude.{
  zero, suc, ℕ, ◌≡◌, ◌≤◌, ◌⊎◌, refl, arith, none, some, List, [], ◌∷◌, Bool, true, false,
}
use kh_common.Prelude.Outcome.{returned, raised}
use kh_common.Prelude.Text.{Text, codes}
use kh_common.Prelude.Dict.{Dict}
use kh_common.Auth.Parse.{int_from_bytes}
use kh_common.Bytes.{int_to_bytes}
use kh_common.Bytes.RoundTrip.{int_from_bytes-int_to_bytes}
use kh_common.Email.{Email, payload_of, send_email}
use kh_common.Email.Sending.{IsAccepted, IsRefused, send_email-IsSent}
use kh_common.MessageQueue.{
  Broker, message, timeout, recv, after_connect, after_declare, finish, consume, greater,
  acknowledge,
}
use kh_common.MessageQueue.Acknowledged.{IsTag, UpTo, IsDelivered, recv-acked}

int_from_bytes-int_to_bytes_example :
    (bytes : List ℕ) × (int_to_bytes 70000 ≡ returned bytes) × (int_from_bytes 0 bytes ≡ 70000)
int_from_bytes-int_to_bytes_example = int_from_bytes-int_to_bytes 70000

abbrev email : Email
email = record {
  to = codes "a@b.c";
  subject = codes "Hello";
  text = codes "text";
  title = some (codes "title");
  button = none;
  subtext = none;
  sender = codes "d@e.f";
  cc_ = none;
  bcc = none;
}

-- A service that accepts the third request.
abbrev accepts : ℕ → Bool
accepts (suc (suc zero)) = true
accepts n = false

abbrev request : Dict Text Text → ℕ → Bool × ℕ
request payload w = (accepts w, suc w)

send_email-IsSent_example :
    (IsAccepted request (payload_of [] email) 5 0 0 (send_email request [] (codes "id") email 0).1
      × ((send_email request [] (codes "id") email 0).0 ≡ returned true))
    ⊎ (IsRefused request (payload_of [] email) 5 0 0 (send_email request [] (codes "id") email 0).1
        × ((send_email request [] (codes "id") email 0).0
            ≡ raised (record {
              message = codes "failed to send email.";
              to = codes "a@b.c";
              subject = codes "Hello";
              refid = codes "id";
            })))
send_email-IsSent_example = send_email-IsSent request [] (codes "id") email 0

abbrev broker : Broker
broker = record {
  connects = true;
  declares = true;
  deliveries = message 4 (codes "a") ∷ message 5 (codes "b") ∷ timeout ∷ [];
  acks = true;
  cancels = false;
  closes = true;
}

recv-acked_example :
    ((t : ℕ) → IsDelivered t broker.deliveries → t ≤ 5 → IsTag t (recv broker).yielded)
    × IsTag 5 (recv broker).yielded
    × UpTo 5 (recv broker).yielded
    × ((consume none broker.deliveries).completed ≡ true)
unfolding recv after_connect after_declare finish consume greater acknowledge
recv-acked_example = recv-acked broker 5 (ground arith) refl
