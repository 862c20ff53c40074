-- ===== src/Logging/Sent.antt =====
-- What the log handler of kh_common/logging.py sends for an exception.
use mathlib.Core.Path.{subst}
use kh_common.Prelude.{◌≡◌, ◌≢◌, refl, sym, ap, ◌∙◌, Option, none, some, List, [], ◌∷◌}
use kh_common.Prelude.Outcome.{Outcome, returned, raised, Yields-returned, ◌>>=◌}
use kh_common.Prelude.Text.{Text, codes}
use kh_common.Json.{
  Value, dict, Entries, no_entry, and_entry, set_entry, merge, json_stream, stream_entries,
}
use kh_common.Json.Lookup.{find, or_else, Distinct, merged-Distinct, find-merge}
use kh_common.Json.Plain.{
  IsPlain, EntriesPlain, EntriesKnown, ArePlain, merge-EntriesPlain, stream_entries-EntriesPlain,
}
use kh_common.Logging.{
  LogError, retry_error, type_error, json_error, other_error, ErrorInfo, LogRecord, Call,
  log_struct, texts, optional, base_entries, add_logdata, add_message, swallow, send, send_info,
  streamed, mapping, info_of, format, emit_message, emit,
}

-- A message that is a dictionary without values that json_stream does not know, or plain
abbrev pub MessageKnown : Value → Type 0
MessageKnown (dict es) = EntriesKnown es
MessageKnown msg = IsPlain msg

-- What `json_stream` makes of a dictionary
pub record Streamed (es : Entries) : Type 0 where
  pub out : Entries
  pub out_of : json_stream (dict es) ≡ returned (dict out)
  pub out_distinct : Distinct out
  pub out_plain : EntriesPlain out

Streamed-known : (es : Entries) → EntriesKnown es → Streamed es
unfolding json_stream
Streamed-known es h =
    let (pairs, e, p) =
      Yields-returned EntriesPlain (stream_entries es) (stream_entries-EntriesPlain es h) in
    record {
      out = merge no_entry pairs;
      out_of = ap (λ o. o >>= λ entries. returned (dict (merge no_entry entries))) e;
      out_distinct = merged-Distinct pairs;
      out_plain = merge-EntriesPlain no_entry pairs tt p;
    }

texts-ArePlain : (ts : List Text) → ArePlain (texts ts)
texts-ArePlain [] = tt
texts-ArePlain (t ∷ ts) = (tt, texts-ArePlain ts)

optional-IsPlain : (t : Option Text) → IsPlain (optional t)
optional-IsPlain none = tt
optional-IsPlain (some t) = tt

base_entries-EntriesPlain : (e : ErrorInfo) → EntriesPlain (base_entries e)
unfolding base_entries
base_entries-EntriesPlain e = (tt, (texts-ArePlain e.stacktrace, (optional-IsPlain e.refid, tt)))

set-IsPlain :
    (k : Text) (v : Value) (d : Entries)
    → IsPlain v
    → EntriesPlain d
    → EntriesPlain (set_entry k v d)
unfolding merge
set-IsPlain k v d p q = merge-EntriesPlain d (and_entry k v no_entry) q (p, tt)

find-set :
    (k : Text) (v : Value) (d : Entries)
    → find k (set_entry (codes "message") v d)
      ≡ or_else (find k (and_entry (codes "message") v no_entry)) (find k d)
unfolding merge find
find-set k v d = find-merge k d (and_entry (codes "message") v no_entry) (refl, tt)

-- The entries that a message adds: those of the converted dictionary, or the one of the message.
abbrev pub MessageEntries : Value → Entries → Type 0
MessageEntries (dict es) more = json_stream (dict es) ≡ returned (dict more)
MessageEntries msg more = more ≡ and_entry (codes "message") msg no_entry

pub record Added (msg : Value) (info : Entries) : Type 0 where
  pub more : Entries
  pub after : Entries
  pub more_of : MessageEntries msg more
  pub added : add_message msg info ≡ returned after
  pub looked_up : (k : Text) → find k after ≡ or_else (find k more) (find k info)
  pub is_plain : EntriesPlain info → EntriesPlain after

message-Added : (msg : Value) (info : Entries) → MessageKnown msg → Added msg info
unfolding add_message
message-Added (dict es) info h =
    let s = Streamed-known es h in
    record {
      more = s.out;
      after = merge info s.out;
      more_of = s.out_of;
      added =
          ap (λ o. streamed o >>= λ v. (mapping v >>= λ more. returned (merge info more))) s.out_of;
      looked_up = λ k. find-merge k info s.out s.out_distinct;
      is_plain = λ p. merge-EntriesPlain info s.out p s.out_plain;
    }
message-Added msg info h = record {
  more = and_entry (codes "message") msg no_entry;
  after = set_entry (codes "message") msg info;
  more_of = refl;
  added = refl;
  looked_up = λ k. find-set k msg info;
  is_plain = λ p. set-IsPlain (codes "message") msg info h p;
}

-- The entries of the exception and its logdata
pub record Described (e : ErrorInfo) (es : Entries) : Type 0 where
  pub details : Streamed es
  pub described : add_logdata e ≡ returned (merge (base_entries e) details.out)

logdata-Described :
    (e : ErrorInfo) (es : Entries) → e.logdata ≡ dict es → EntriesKnown es → Described e es
unfolding add_logdata
logdata-Described e es d h =
    let s = Streamed-known es h in
    record {
      details = s;
      described =
          ap
            (λ v. streamed (json_stream v) >>= λ v.
              (mapping v >>= λ es. returned (merge (base_entries e) es)))
            d
          ∙ ap (λ o. streamed o >>= λ v. (mapping v >>= λ es. returned (merge (base_entries e) es)))
              s.out_of;
    }

-- One structure was sent. A key has in it what the message gives for it, else what the logdata
-- gives, else the entry of the exception.
pub record IsLogged (e : ErrorInfo) (es : Entries) (msg : Value) (level : Text) (calls : List Call)
    : Type 0 where
  pub info : Entries
  pub more : Entries
  pub details : Entries
  pub more_of : MessageEntries msg more
  pub details_of : json_stream (dict es) ≡ returned (dict details)
  pub sent : calls ≡ log_struct (dict info) level ∷ []
  pub looked_up :
      (k : Text)
      → find k info ≡ or_else (find k more) (or_else (find k details) (find k (base_entries e)))
  pub is_plain : EntriesPlain info

swallowed : (o : Outcome LogError (Unit {0})) → swallow o ≢ raised retry_error
swallowed (returned u) h = cc
swallowed (raised retry_error) h = cc
swallowed (raised type_error) h = cc
swallowed (raised (json_error e)) h = cc
swallowed (raised (other_error n)) h = cc

module _ {Args : Type 0} (percent : Text → Args → Outcome LogError Text) (str : Value → Text)
    (agent : Call → Outcome LogError (Unit {0})) where
  -- A record of an exception whose message, once its arguments are put in, is plain or a dictionary,
  -- and whose logdata is a dictionary, both without values unknown to json_stream, is sent as one
  -- structure of plain JSON: its keys are found in the message, else in the logdata, else among the
  -- name, trace and refid of the exception. A RetryError of the agent never leaves the handler.
  pub emit-IsLogged :
      (r : LogRecord Args) (e : ErrorInfo) (es : Entries) (msg : Value)
      → r.exc_info ≡ some e
      → format percent str agent r.args r.msg ≡ returned msg
      → e.logdata ≡ dict es
      → EntriesKnown es
      → MessageKnown msg
      → IsLogged e es msg r.levelname (emit percent str agent r).0
        × ((emit percent str agent r).1 ≢ raised retry_error)
  unfolding emit emit_message
  emit-IsLogged r e es msg x f d k m =
      let l = logdata-Described e es d k in
      let a = message-Added msg (merge (base_entries e) l.details.out) m in
      let info : info_of percent str agent e msg ≡ returned a.after =
        ap (λ o. o >>= add_message msg) l.described ∙ a.added in
      let emitted : emit percent str agent r
          ≡ send percent str agent (log_struct (dict a.after) r.levelname) =
        ap
          (λ exc.
            emit_message percent str agent exc r.levelname (format percent str agent r.args r.msg))
          x
        ∙ (ap (emit_message percent str agent (some e) r.levelname) f
            ∙ ap (send_info percent str agent r.levelname) info) in
      (
        record {
          info = a.after;
          more = a.more;
          details = l.details.out;
          more_of = a.more_of;
          details_of = l.details.out_of;
          sent = ap (λ p. p.0) emitted;
          looked_up = λ k.
              a.looked_up k
              ∙ ap (or_else (find k a.more))
                  (find-merge k (base_entries e) l.details.out l.details.out_distinct);
          is_plain = a.is_plain (
              merge-EntriesPlain (base_entries e) l.details.out (base_entries-EntriesPlain e)
                l.details.out_plain);
        },
        subst (λ p. p.1 ≢ raised retry_error) (sym emitted)
            (swallowed (agent (log_struct (dict a.after) r.levelname))),
      )
