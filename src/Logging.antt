-- ===== src/Logging.antt =====
-- kh_common/logging.py: what `LogHandler.emit` sends to its agent. The agent, the `%` of a message and
-- its arguments, and `str` are parameters; the lines of a traceback come as they are sent.
pub mod Sent
pub mod Setup
use kh_common.Prelude.{
  ℕ, Option, none, some, List, [], ◌∷◌, ◌++◌, map, Bool, true, false, ◌&&◌, not, if◌then◌else◌,
}
use kh_common.Prelude.Outcome.{Outcome, returned, raised, ◌>>=◌}
use kh_common.Prelude.Text.{Text, Text-discrete, codes}
use kh_common.Json.{
  JsonError, attribute_error, Sequence, list, tuple, set, filter, Value, null, text, sequence, dict,
  Values, no_value, and_value, Entries, no_entry, and_entry, set_entry, merge, json_stream,
}

-- google's RetryError; the exceptions of json_stream; the TypeError of `**` with no mapping; and any
-- other exception.
pub data LogError : Type 0 where
  retry_error type_error : LogError
  json_error : JsonError → LogError
  other_error : ℕ → LogError

-- `getFullyQualifiedClassName`, of an object by its `__module__`, if it has one, and the name of its
-- class
unfoldable pub full_class_name : Option Text → Text → Text
full_class_name none name = name
full_class_name (some []) name = name
full_class_name (some (c ∷ cs)) name = elim (Text-discrete (c ∷ cs) (codes "builtins")) [
  | yes p ↦ name
  | no p ↦ (c ∷ cs) ++ (codes "." ++ name)
]

-- The exception of a record: `str(e)`, and the `hex` of its refid. A missing `logdata` is {}.
pub record ErrorInfo : Type 0 where
  pub module_name : Option Text
  pub class_name : Text
  pub message : Text
  pub refid : Option Text
  pub stacktrace : List Text
  pub logdata : Value

pub record LogRecord (Args : Type 0) : Type 0 where
  pub msg : Value
  pub args : Option Args
  pub exc_info : Option ErrorInfo
  pub levelname : Text

-- What is asked of the agent
pub data Call : Type 0 where
  log_struct : Value → Text → Call
  log_text : Text → Text → Call

abbrev pub texts : List Text → Values
texts [] = no_value
texts (t ∷ ts) = and_value (text t) (texts ts)

abbrev pub optional : Option Text → Value
optional none = null
optional (some t) = text t

-- The entries that come before those of the exception's logdata
unfoldable pub base_entries : ErrorInfo → Entries
unfolding full_class_name
base_entries e =
    and_entry (codes "error")
      (text (full_class_name e.module_name e.class_name ++ (codes ": " ++ e.message)))
      (and_entry (codes "stacktrace") (sequence list (texts e.stacktrace))
        (and_entry (codes "refid") (optional e.refid) no_entry))

abbrev pub streamed : Outcome JsonError Value → Outcome LogError Value
streamed (returned v) = returned v
streamed (raised e) = raised (json_error e)

-- `**v` in a dictionary, and the argument of `update`
abbrev pub mapping : Value → Outcome LogError Entries
mapping (dict es) = returned es
mapping v = raised type_error

unfoldable pub add_logdata : ErrorInfo → Outcome LogError Entries
unfolding base_entries merge json_stream
add_logdata e = do
  v ← streamed (json_stream e.logdata)
  es ← mapping v
  returned (merge (base_entries e) es)

-- `isinstance(record.msg, dict)`
unfoldable pub add_message : Value → Entries → Outcome LogError Entries
unfolding merge json_stream
add_message (dict es) info = do
  v ← streamed (json_stream (dict es))
  more ← mapping v
  returned (merge info more)
add_message msg info = returned (set_entry (codes "message") msg info)

-- `isinstance(record.msg, self._structs)`, for the structs of the default
unfoldable pub is_struct : Value → Bool
is_struct (dict es) = true
is_struct (sequence list vs) = true
is_struct (sequence tuple vs) = true
is_struct v = false

-- `except RetryError`
abbrev pub swallow : Outcome LogError (Unit {0}) → Outcome LogError (Unit {0})
swallow (raised retry_error) = returned tt
swallow o = o

-- The calls of the agent, and how emit ends
abbrev pub Emitted : Type 0
Emitted = List Call × Outcome LogError (Unit {0})

module _ {Args : Type 0} (percent : Text → Args → Outcome LogError Text) (str : Value → Text)
    (agent : Call → Outcome LogError (Unit {0})) where
  -- `record.msg % record.args`; `args` is none where the record has none that are truthy.
  unfoldable pub format : Option Args → Value → Outcome LogError Value
  format (some args) (text t) = do t' ← percent t args; returned (text t')
  format args msg = returned msg

  abbrev pub send : Call → Emitted
  send call = (call ∷ [], swallow (agent call))

  abbrev pub send_struct : Text → Outcome LogError Value → Emitted
  send_struct level (returned v) = send (log_struct v level)
  send_struct level (raised e) = ([], swallow (raised e))

  abbrev pub info_of : ErrorInfo → Value → Outcome LogError Entries
  info_of e msg = add_logdata e >>= add_message msg

  abbrev pub send_info : Text → Outcome LogError Entries → Emitted
  send_info level (returned info) = send (log_struct (dict info) level)
  send_info level (raised e) = ([], raised e)

  -- The message once it is put together
  unfoldable pub emit_message : Option ErrorInfo → Text → Outcome LogError Value → Emitted
  unfolding add_logdata add_message is_struct json_stream
  emit_message exc level (raised e) = ([], raised e)
  emit_message (some e) level (returned msg) = send_info level (info_of e msg)
  emit_message none level (returned msg) =
      if is_struct msg
      then send_struct level (streamed (json_stream msg))
      else send (log_text (str msg) level)

  -- `LogHandler.emit`
  unfoldable pub emit : LogRecord Args → Emitted
  unfolding format emit_message
  emit record' = emit_message record'.exc_info record'.levelname (format record'.args record'.msg)
