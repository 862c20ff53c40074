-- ===== src/Telegram/Commands.antt =====
-- `parseMessage` of kh_common/telegram/__init__.py: what a message asks the bot to do. Offsets count
-- the code points of the text, as the slices of the source do. `strip` is `str.strip`, and the
-- keyword arguments that a handler asks for are left out.
use kh_common.Prelude.{
  ℕ, ◌+◌, Option, none, some, List, [], ◌∷◌, Bool, true, false, ◌==◌, if◌then◌else◌,
}
use kh_common.Prelude.Lists.{take, drop}
use kh_common.Prelude.Dict
use kh_common.Prelude.Dict.{Dict}
use kh_common.Prelude.Text.{Text, Text-discrete, lower}
use kh_common.Auth.Parse.{cut_first}

pub record Entity : Type 0 where
  pub is_bot_command : Bool
  pub offset : ℕ
  pub length : ℕ

pub record Message : Type 0 where
  pub from_id : ℕ
  pub chat_id : ℕ
  pub text : Text
  pub entities : List Entity

-- The arguments of the listener that are read here; `bot_name` is in lower case, and the commands
-- are those with a handler of their own.
pub record Settings : Type 0 where
  pub allow_chats : Bool
  pub bot_name : Option Text
  pub responses : Dict Text Text

-- What is done about a message: nothing, `handleNonCommand`, a fixed response, or the handler of a
-- command, which is `handleUnknownCommand` where none is registered.
pub data Action : Type 0 where
  ignored : Action
  non_command : Bool → Action
  respond : Text → Action
  run : Text → Text → Action

-- `next(filter(…, message.entities))`
unfoldable pub first_command : List Entity → Option Entity
first_command [] = none
first_command (e ∷ es) = if e.is_bot_command then some e else first_command es

-- `command.split('@')`, where its first two parts are looked at
unfoldable pub addressee : Text → Option (Text × Text)
unfolding cut_first
addressee command = elim (cut_first b'@' command) [
  | none ↦ none
  | some (name, rest) ↦ (elim (cut_first b'@' rest) [
    | none ↦ some (name, rest)
    | some (bot, more) ↦ some (name, bot)
  ])
]

abbrev pub is_named : Option Text → Text → Bool
is_named none bot = false
is_named (some name) bot = elim (Text-discrete bot name) [ yes p ↦ true | no p ↦ false ]

module _ (strip : Text → Text) (settings : Settings) where
  -- `if command in self.responses`, and the handler otherwise
  unfoldable pub dispatch : Text → Text → Action
  dispatch command rest = elim (Dict.get Text-discrete command settings.responses) [
    | some response ↦ respond response
    | none ↦ run command (strip rest)
  ]

  -- In a chat, the command has to name the bot.
  unfoldable pub in_chat : Text → Option (Text × Text) → Action
  unfolding dispatch lower
  in_chat rest none = ignored
  in_chat rest (some (command, bot)) =
      if is_named settings.bot_name (lower bot) then dispatch command rest else ignored

  unfoldable pub on_command : Bool → Text → Text → Action
  unfolding in_chat addressee
  on_command true command rest = in_chat rest (addressee command)
  on_command false command rest = dispatch command rest

  unfoldable pub on_entity : Bool → Text → Option Entity → Action
  unfolding on_command
  on_entity is_chat text none = non_command is_chat
  on_entity is_chat text (some e) =
      on_command is_chat (take e.length (drop e.offset text)) (drop (e.offset + e.length) text)

  -- `parseMessage`
  unfoldable pub parse_message : Message → Action
  unfolding on_entity first_command
  parse_message m =
      if m.from_id == m.chat_id
      then on_entity false m.text (first_command m.entities)
      else if settings.allow_chats
      then on_entity true m.text (first_command m.entities)
      else ignored

  abbrev pub Acts : Action → Type 0
  Acts ignored = ⊥
  Acts (non_command is_chat) = ⊥
  Acts _ = Unit
