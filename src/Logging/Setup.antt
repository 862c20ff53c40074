-- ===== src/Logging/Setup.antt =====
-- The agent that `LogHandler.__init__` of kh_common/logging.py chooses, the lines of `TerminalAgent`, and
-- the handlers that `getLogger` leaves. Google's client, the clock and `json.dumps` are parameters.
use kh_common.Prelude.{ℕ, Option, none, some, List, [], ◌∷◌, ◌++◌, Bool, true, false}
use kh_common.Prelude.Text.{Text, codes}
use kh_common.Json.{Value}
use kh_common.Logging.{Call, log_struct, log_text}

-- The logger of Google's client, or TerminalAgent
pub data Agent (Client : Type 0) : Type 0 where
  client_logger : Client → Text → Agent Client
  terminal : Agent Client

-- A `LogHandler`
pub record Handler (Client : Type 0) : Type 0 where
  pub name : Text
  pub level : ℕ
  pub agent : Agent Client

-- `LogHandler.logging_available`, the handlers of the root logger, and the loggers whose messages do
-- not reach it
pub record Root (Client : Type 0) : Type 0 where
  pub logging_available : Bool
  pub handlers : List (Handler Client)
  pub silenced : List Text

-- `print('[' + … + ']', severity, '>', log)`
unfoldable pub terminal_line : Text → Text → Text → Text
terminal_line clock severity log =
    codes "[" ++ (clock ++ (codes "] " ++ (severity ++ (codes " > " ++ log))))

-- `TerminalAgent.log_text` and `TerminalAgent.log_struct`
unfoldable pub terminal_output : Text → (Value → Text) → Call → Text
unfolding terminal_line
terminal_output clock dumps (log_text log severity) = terminal_line clock severity log
terminal_output clock dumps (log_struct log severity) = terminal_line clock severity (dumps log)

-- `name or f'{repo_name}.{short_hash}'`
abbrev pub name_or : Option Text → Text → Text
name_or none default = default
name_or (some []) default = default
name_or (some (c ∷ cs)) default = c ∷ cs

module _ {Client : Type 0} where
  -- The `try` of `__init__`; `connect` is none where one of Google's calls raises.
  unfoldable pub choose_agent : Option Client → Text → Bool → Bool × Agent Client
  choose_agent connect name false = (false, terminal)
  choose_agent none name true = (false, terminal)
  choose_agent (some client) name true = (true, client_logger client name)

  -- `getLogger`; `default` is the name that is made of the repository's.
  unfoldable pub get_logger :
      Option Client → Option Text → Text → ℕ → List Text → Root Client → Root Client
  unfolding choose_agent
  get_logger connect name default level disable root =
      let logger = name_or name default in
      let (available, agent) = choose_agent connect logger root.logging_available in
      record {
        logging_available = available;
        handlers = record { name = logger; level = level; agent = agent } ∷ [];
        silenced = disable ++ root.silenced;
      }
