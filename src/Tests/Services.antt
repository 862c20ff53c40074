-- ===== src/Tests/Services.antt =====
-- kh_common/backblaze.py, telegram/__init__.py and server/middleware/cors.py at concrete inputs.
use kh_common.Prelude.{
  zero, suc, ℕ, ◌+◌, ◌≡◌, refl, none, some, List, [], ◌∷◌, Bool, true, arith, ℕ_discrete,
}
use kh_common.Prelude.Outcome.{returned}
use kh_common.Prelude.Dict
use kh_common.Prelude.Dict.{Dict}
use kh_common.Prelude.Text.{Text, Text-discrete, codes}
use kh_common.Backblaze
use kh_common.Backblaze.{
  ok, Uploaded, UploadUrl, Credentials, File, Remote, Session, choose_type, choose_sha1, b2_upload,
  check_uploaded, upload_loop, obtain_upload_url, obtain_loop, mime_from_filename, extension_of,
  next_backoff,
}
use kh_common.Backblaze.Upload.{IsConfirmed, b2_upload-IsConfirmed}
use kh_common.Backblaze.Files.{
  delete_file, delete_files, delete_loop, list_loop, after_reply, as_bool,
}
use kh_common.Backblaze.Files.Deleted.{Went, delete_file-IsNamed}
use kh_common.Telegram.Split.Chunks.{IsSplit}
use kh_common.Telegram.Send
use kh_common.Telegram.Send.{Body, accepted, send_message, bodies_of}
use kh_common.Telegram.Send.Sent.{Result, send_message-IsSent}
use kh_common.Telegram.Commands
use kh_common.Telegram.Commands.{Message, Acts}
use kh_common.Cors.{Settings, Url, Request}

abbrev credentials : Credentials
credentials = record {
  api_url = codes "api";
  auth_token = codes "token";
  bucket_id = codes "bucket";
  download_url = codes "files";
}

abbrev listed : List File
listed =
    record { file_id = codes "1"; file_name = codes "a.png" }
    ∷ record { file_id = codes "2"; file_name = codes "b.png" }
    ∷ []

abbrev first_fails : ℕ → Backblaze.Reply UploadUrl
first_fails zero = Backblaze.Reply.not_ok 503
first_fails (suc n) = ok (record { url = codes "up"; authorization = codes "token" })

-- The world counts the requests, and the first for an upload URL fails.
abbrev remote : Remote
remote = record {
  World = ℕ;
  authorize_account = λ w. (ok credentials, w + 1);
  get_upload_url = λ c w. (first_fails w, w + 1);
  upload_file = λ url text name kind sha1 w.
      (ok (record { content_type = kind; content_sha1 = sha1; file_name = name }), w + 1);
  list_versions = λ c name w. (ok listed, w + 1);
  delete_version = λ c i name w. (ok tt, w + 1);
}

abbrev session : ℕ → List ℕ → Session ℕ
session w waits = record { credentials = credentials; world = w; waits = waits }

abbrev uploaded : Uploaded
uploaded = record {
  content_type = codes "image/png";
  content_sha1 = codes "hash";
  file_name = codes "a.png";
}

abbrev mime_types : Dict Text Text
mime_types = (codes "png", codes "image/png") ∷ []

b2_upload-IsConfirmed_example :
    (k : Text) × (choose_type remote 30 3 mime_types (codes "a.png") none ≡ returned k)
    × IsConfirmed
        (λ t. t)
        (codes "a.png")
        k
        (choose_sha1 remote 30 3 (λ t. codes "hash") (codes "data") none)
        uploaded
unfolding b2_upload obtain_upload_url obtain_loop mime_from_filename extension_of check_uploaded
    Text-discrete ℕ_discrete Dict.get
b2_upload-IsConfirmed_example =
    b2_upload-IsConfirmed remote 30 3 (λ t. t) (λ t. codes "hash") mime_types (codes "data")
      (codes "a.png") none none (session 0 []) (session 3 (1 ∷ [])) uploaded refl

delete_file-IsNamed_example :
    (files : List File) × (s' : Session ℕ) × (n : ℕ) × (list_loop remote 30 3 3
        (codes "b.png")
        (session 0 [])
      ≡ (some files, s'))
    × Went remote (codes "b.png") 3 files n s' (session 2 [])
    × (true ≡ as_bool n)
unfolding delete_file list_loop delete_files delete_loop after_reply Text-discrete ℕ_discrete
delete_file-IsNamed_example =
    delete_file-IsNamed remote 30 3 (codes "b.png") (session 0 []) (session 2 []) true refl

abbrev post : Body ℕ → ℕ → Send.Reply × ℕ
post body w = (accepted, w + 1)

send_message-IsSent_example :
    (messages : List Text) × (result : Bool) × (w' : ℕ) × (send_message post 6
        (codes " " ∷ [])
        (some 1)
        (codes "one two three")
        0
      ≡ some (result, w'))
    × IsSplit 6 (codes " " ∷ []) (codes "one two three") messages
    × Result post (bodies_of post (some 1) messages) 0 w' result
send_message-IsSent_example =
    send_message-IsSent post 6 (codes " " ∷ []) (some 1) (codes "one two three") 0 (omega arith)

abbrev listener : Commands.Settings
listener = record { allow_chats = true; bot_name = some (codes "bot"); responses = [] }

abbrev greeting : Message
greeting = record {
  from_id = 1;
  chat_id = 2;
  text = codes "/help@Bot me";
  entities = record { is_bot_command = true; offset = 0; length = 9 } ∷ [];
}

abbrev settings : Settings
settings = record {
  allowed_origins = codes "kheina.com" ∷ [];
  allowed_protocols = codes "https" ∷ [];
  allowed_headers = codes "*";
  allowed_methods = codes "GET";
  allow_credentials = codes "true";
  exposed_headers = codes "*";
  max_age = codes "86400";
}

abbrev parse : Text → Url
parse t = record { scheme = codes "https"; netloc = codes "kheina.com:443"; geturl = t }

abbrev from_kheina : Request
from_kheina = record {
  is_http = true;
  method = codes "GET";
  origin = some (codes "https://kheina.com:443");
  requested_method = none;
}
