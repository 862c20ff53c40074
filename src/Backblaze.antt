-- ===== src/Backblaze.antt =====
-- `B2Interface` of kh_common/backblaze.py. The requests are a parameter: each changes an unknown
-- state of the outside world and comes to a reply. The `_async` methods run the same steps as the
-- plain ones. Logging is left out, and so is the content of a failed response, which is taken to be
-- empty or JSON; the waits of `sleep` are kept as a list.
pub mod Upload
pub mod Files
pub mod Types
use kh_common.Prelude.{
  ℕ, zero, suc, ◌+◌, ◌*◌, ◌≡◌, Option, none, some, List, [], ◌∷◌, ◌++◌, Bool, true, false, leb, ltb,
  if◌then◌else◌, ◌&&◌, not, ◌==◌,
}
use kh_common.Prelude.Lists.{drop}
use kh_common.Prelude.Outcome.{Outcome, returned, raised, ◌>>=◌}
use kh_common.Prelude.Dict
use kh_common.Prelude.Dict.{Dict}
use kh_common.Prelude.Text.{Text, Text-discrete, codes, rfind, lower}

-- `B2AuthorizationError` and `B2UploadError` with their status, the AssertionError of an upload or
-- a listing, the ValueError and KeyError of the mime types, and the UnboundLocalError of `exc_info=e`.
pub data B2Error : Type 0 where
  authorization_error upload_error : Option ℕ → B2Error
  assertion_error value_error key_error unbound_local : B2Error

-- What a request comes to: a response that is ok, with its content, or with its status and
-- a content that cannot be read; one that is not, with its status; or an exception.
pub data Reply (A : Type 0) : Type 0 where
  ok : A → Reply A
  unreadable : ℕ → Reply A
  not_ok : ℕ → Reply A
  failed : Reply A

-- `b2_api_url`, `b2_auth_token`, `b2_bucket_id` and `b2_download_url`
pub record Credentials : Type 0 where
  pub api_url : Text
  pub auth_token : Text
  pub bucket_id : Text
  pub download_url : Text

pub record UploadUrl : Type 0 where
  pub url : Text
  pub authorization : Text

-- The content of the answer to an upload.
pub record Uploaded : Type 0 where
  pub content_type : Text
  pub content_sha1 : Text
  pub file_name : Text

pub record File : Type 0 where
  pub file_id : Text
  pub file_name : Text

-- The five headers of an upload are made of the arguments here.
pub record Remote : Type 1 where
  pub World : Type 0
  pub authorize_account : World → Reply Credentials × World
  pub get_upload_url : Credentials → World → Reply UploadUrl × World
  pub upload_file : UploadUrl → Text → Text → Text → Text → World → Reply Uploaded × World
  pub list_versions : Credentials → Text → World → Reply (List File) × World
  pub delete_version : Credentials → Text → Text → World → Reply (Unit {0}) × World

abbrev pub same_text : Text → Text → Bool
same_text s t = elim (Text-discrete s t) [ yes p ↦ true | no p ↦ false ]

-- `min(backoff * 2, max_backoff)`
abbrev pub next_backoff : ℕ → ℕ → ℕ
next_backoff max_backoff backoff =
    if leb (backoff * 2) max_backoff then backoff * 2 else max_backoff

-- `filename[filename.rfind('.') + 1:]`, which is the whole name, where there is no dot
unfoldable pub extension_of : Text → Text
unfolding rfind
extension_of filename = elim (rfind filename (codes ".")) [
  | none ↦ filename
  | some i ↦ drop (suc i) filename
]

abbrev found : Option Text → Outcome B2Error Text
found none = raised key_error
found (some mime) = returned mime

-- `_get_mime_from_filename`: the test is made before the extension is put in lower case.
unfoldable pub mime_from_filename : Dict Text Text → Text → Outcome B2Error Text
unfolding extension_of lower
mime_from_filename mime_types filename =
    elim (Dict.get Text-discrete (extension_of filename) mime_types) [
      | none ↦ raised value_error
      | some m ↦ found (Dict.get Text-discrete (lower (extension_of filename)) mime_types)
    ]

-- The object's state that changes, and the world.
pub record Session (World : Type 0) : Type 0 where
  pub credentials : Credentials
  pub world : World
  pub waits : List ℕ

-- The three asserts on the content of an ok response. `unquote` is that of urllib.
unfoldable pub check_uploaded :
    (Text → Text) → Text → Text → Text → Uploaded → Outcome B2Error Uploaded
check_uploaded unquote filename content_type sha1 c =
    if same_text content_type c.content_type
      && same_text sha1 c.content_sha1
      && same_text filename (unquote c.file_name)
    then returned c
    else raised assertion_error

module _ (remote : Remote) (max_backoff max_retries : ℕ) where
  open remote use {World}

  -- `_b2_authorize`, with the rounds left. A response that is not ok counts as false, so the error
  -- has no status.
  unfoldable pub authorize_loop : ℕ → Session World → Outcome B2Error (Unit {0}) × Session World
  authorize_loop zero s = (raised (authorization_error none), s)
  authorize_loop (suc left) s =
      let (reply, w) = remote.authorize_account s.world in
      let rest = authorize_loop left (record s { world = w }) in
      elim reply [
        | ok c ↦ (returned tt, record s { credentials = c; world = w })
        | unreadable code ↦ (raised value_error, record s { world = w })
        | not_ok status ↦ rest
        | failed ↦ rest
      ]

  unfoldable pub authorize : Session World → Outcome B2Error (Unit {0}) × Session World
  unfolding authorize_loop
  authorize s = authorize_loop max_retries s

  -- `sleep(backoff)`
  abbrev pub sleep : ℕ → Session World → Session World
  sleep backoff s = record s { waits = s.waits ++ backoff ∷ [] }

  -- `_obtain_upload_url`: the rounds left, the backoff, and the status to report
  unfoldable pub obtain_loop :
      ℕ → ℕ → Option ℕ → Session World → Outcome B2Error UploadUrl × Session World
  unfolding authorize
  obtain_loop zero backoff status s = (raised (authorization_error status), s)
  obtain_loop (suc left) backoff status s =
      let (reply, w) = remote.get_upload_url s.credentials s.world in
      let s' = record s { world = w } in
      let next = next_backoff max_backoff backoff in
      elim reply [
        | ok url ↦ (returned url, s')
        | unreadable code ↦ obtain_loop left next status (sleep backoff s')
        | failed ↦ obtain_loop left next status (sleep backoff s')
        | not_ok code ↦ (elim (code == 401) [
          | true ↦ obtain_loop left next status (sleep backoff (authorize s').1)
          | false ↦ obtain_loop left next (some code) (sleep backoff s')
        ])
      ]

  unfoldable pub obtain_upload_url : Session World → Outcome B2Error UploadUrl × Session World
  unfolding obtain_loop
  obtain_upload_url s = obtain_loop max_retries 1 none s

  module _ (unquote : Text → Text) (url : UploadUrl) (data_ filename content_type sha1 : Text) where
    -- What follows the reply to one request; `again` is the rest of the loop.
    abbrev pub after_upload :
        (Option ℕ → Outcome B2Error Uploaded × Session World)
        → Option ℕ
        → Reply Uploaded
        → Session World
        → Outcome B2Error Uploaded × Session World
    after_upload again status (ok c) s = (check_uploaded unquote filename content_type sha1 c, s)
    after_upload again status (unreadable code) s = again (some code)
    after_upload again status (not_ok code) s = again (some code)
    after_upload again status failed s = again status

    -- The loop of `b2_upload`
    unfoldable pub upload_loop :
        ℕ → ℕ → Option ℕ → Session World → Outcome B2Error Uploaded × Session World
    unfolding check_uploaded
    upload_loop zero backoff status s = (raised (upload_error status), s)
    upload_loop (suc left) backoff status s =
        let (reply, w) = remote.upload_file url data_ filename content_type sha1 s.world in
        let s' = record s { world = w } in
        after_upload
          (λ code. upload_loop left (next_backoff max_backoff backoff) code (sleep backoff s'))
          status reply s'

  -- `content_type or self._get_mime_from_filename(filename)`
  abbrev pub choose_type : Dict Text Text → Text → Option Text → Outcome B2Error Text
  choose_type mime_types filename none = mime_from_filename mime_types filename
  choose_type mime_types filename (some []) = mime_from_filename mime_types filename
  choose_type mime_types filename (some (c ∷ t)) = returned (c ∷ t)

  abbrev pub choose_sha1 : (Text → Text) → Text → Option Text → Text
  choose_sha1 sha1_of data_ none = sha1_of data_
  choose_sha1 sha1_of data_ (some []) = sha1_of data_
  choose_sha1 sha1_of data_ (some (c ∷ t)) = c ∷ t

  abbrev pub upload_to :
      (Text → Text)
      → Text
      → Text
      → Text
      → Outcome B2Error Text
      → Outcome B2Error UploadUrl × Session World
      → Outcome B2Error Uploaded × Session World
  upload_to unquote data_ filename sha1 kind (raised e, s) = (raised e, s)
  upload_to unquote data_ filename sha1 (raised e) (returned url, s) = (raised e, s)
  upload_to unquote data_ filename sha1 (returned t) (returned url, s) =
      upload_loop unquote url data_ filename t sha1 max_retries 1 none s

  -- `b2_upload`; `sha1_of` is the hex digest of hashlib.
  unfoldable pub b2_upload :
      (Text → Text)
      → (Text → Text)
      → Dict Text Text
      → Text
      → Text
      → Option Text
      → Option Text
      → Session World
      → Outcome B2Error Uploaded × Session World
  unfolding obtain_upload_url mime_from_filename upload_loop
  b2_upload unquote sha1_of mime_types data_ filename content_type sha1 s =
      upload_to unquote data_ filename (choose_sha1 sha1_of data_ sha1)
        (choose_type mime_types filename content_type) (obtain_upload_url s)
