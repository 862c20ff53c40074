-- ===== src/MessageQueue.antt =====
-- `Receiver` of kh_common/message_queue.py: what is read from the queue, and what is acknowledged. The
-- broker's client is a parameter: how each of its calls ends. Logging is a record of its warnings.
pub mod Acknowledged
use kh_common.Prelude.{
  ℕ, ◌≤◌, Option, none, some, List, [], ◌∷◌, ◌++◌, Bool, true, false, leb, if◌then◌else◌,
}
use kh_common.Prelude.Text.{Text}

-- What `channel.consume` gives: a message with its tag, the empty body of an inactivity timeout, or
-- an exception; and the consumer of the generator may stop at a message, which raises in it too.
pub data Delivery : Type 0 where
  message : ℕ → Text → Delivery
  stopped_at : ℕ → Text → Delivery
  timeout : Delivery
  crash : Delivery

-- Whether each call returns: the connection, then its channel and the declarations, `basic_ack`,
-- `cancel` and `close`; and what is delivered.
pub record Broker : Type 0 where
  pub connects : Bool
  pub declares : Bool
  pub deliveries : List Delivery
  pub acks : Bool
  pub cancels : Bool
  pub closes : Bool

-- The loop over the messages: what was yielded, the greatest tag so far, and whether it ended
-- without an exception.
pub record Consumed : Type 0 where
  pub yielded : List (ℕ × Text)
  pub ack : Option ℕ
  pub completed : Bool

-- What `_recv` does: the messages that the consumer was given, the tag up to which they were
-- acknowledged, and the warnings that were logged.
pub record Received : Type 0 where
  pub yielded : List (ℕ × Text)
  pub acked : Option ℕ
  pub crashed : Bool
  pub close_failed : Bool

-- `max(ack, method_frame.delivery_tag)`, where `none` is -1
unfoldable pub greater : Option ℕ → ℕ → ℕ
greater none tag = tag
greater (some ack) tag = if leb ack tag then tag else ack

-- `for method_frame, _, body in it`; an empty body ends the loop.
unfoldable pub consume : Option ℕ → List Delivery → Consumed
unfolding greater
consume ack [] = record { yielded = []; ack = ack; completed = true }
consume ack (timeout ∷ ds) = record { yielded = []; ack = ack; completed = true }
consume ack (crash ∷ ds) = record { yielded = []; ack = ack; completed = false }
consume ack (message tag [] ∷ ds) = record { yielded = []; ack = ack; completed = true }
consume ack (message tag (c ∷ body) ∷ ds) =
    let rest = consume (some (greater ack tag)) ds in
    record rest { yielded = (tag, c ∷ body) ∷ rest.yielded }
consume ack (stopped_at tag [] ∷ ds) = record { yielded = []; ack = ack; completed = true }
consume ack (stopped_at tag (c ∷ body) ∷ ds) = record {
  yielded = (tag, c ∷ body) ∷ [];
  ack = ack;
  completed = false;
}

-- `if ack >= 0: channel.basic_ack(…)` and `channel.cancel()`: what was acknowledged, and whether the
-- `try` clause ended with an exception
unfoldable pub acknowledge : Broker → Option ℕ → Option ℕ × Bool
acknowledge broker none = (none, (if broker.cancels then false else true))
acknowledge broker (some tag) =
    if broker.acks then (some tag, (if broker.cancels then false else true)) else (none, true)

unfoldable pub finish : Broker → Consumed → Received
unfolding acknowledge
finish broker c =
    let (acked, failed) = (if c.completed then acknowledge broker c.ack else (none, true)) in
    record {
      yielded = c.yielded;
      acked = acked;
      crashed = failed;
      close_failed = if broker.closes then false else true;
    }

-- The `try` clause after the connection, and after its channel and the declarations: the exceptions
-- of both are logged, and the connection is closed.
unfoldable pub after_declare : Broker → Bool → Received
unfolding finish consume
after_declare broker true = finish broker (consume none broker.deliveries)
after_declare broker false = finish broker (record { yielded = []; ack = none; completed = false })

unfoldable pub after_connect : Broker → Bool → Received
unfolding after_declare
after_connect broker true = after_declare broker broker.declares
after_connect broker false = record {
  yielded = [];
  acked = none;
  crashed = true;
  close_failed = false;
}

-- `_recv`
unfoldable pub recv : Broker → Received
unfolding after_connect
recv broker = after_connect broker broker.connects
