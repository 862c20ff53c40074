-- ===== src/Backblaze/Upload.antt =====
-- What `b2_upload` has checked when it returns.
use mathlib.Core.Path.{subst}
use kh_common.Prelude.{
  ℕ, zero, suc, ◌≡◌, refl, Option, none, some, true, Bool-cases, inl, inr, arith,
}
use kh_common.Prelude.Outcome.{Outcome, returned, raised}
use kh_common.Prelude.Dict.{Dict}
use kh_common.Prelude.Text.{Text}
use kh_common.Backblaze.{
  B2Error, Reply, ok, unreadable, not_ok, failed, UploadUrl, Uploaded, Remote, Session, same_text,
  next_backoff, sleep, check_uploaded, after_upload, upload_loop, choose_type, choose_sha1,
  upload_to, obtain_upload_url, b2_upload,
}

-- The content names the type, the hash and the file that were sent.
pub record IsConfirmed (unquote : Text → Text) (filename content_type sha1 : Text) (c : Uploaded)
    : Type 0 where
  pub same_type : content_type ≡ c.content_type
  pub same_sha1 : sha1 ≡ c.content_sha1
  pub same_name : filename ≡ unquote c.file_name

same_text-eq : (s t : Text) → same_text s t ≡ true → s ≡ t
same_text-eq s t h = ground arith

check_uploaded-IsConfirmed :
    (unquote : Text → Text) (filename content_type sha1 : Text) (c d : Uploaded)
    → check_uploaded unquote filename content_type sha1 c ≡ returned d
    → IsConfirmed unquote filename content_type sha1 d
unfolding check_uploaded
check_uploaded-IsConfirmed unquote filename content_type sha1 c d h =
    elim (Bool-cases (same_text content_type c.content_type)) [
      | inr p ↦ let h' : raised B2Error.assertion_error ≡ returned d = rw p at h in cc
      | inl p ↦ elim (Bool-cases (same_text sha1 c.content_sha1)) [
        | inr q ↦ let h' : raised B2Error.assertion_error ≡ returned d = rw (p, q) at h in cc
        | inl q ↦ elim (Bool-cases (same_text filename (unquote c.file_name))) [
          | inr r ↦ let h' : raised B2Error.assertion_error ≡ returned d = rw (p, q, r) at h in cc
          | inl r ↦
              let h' : returned c ≡ returned d = rw (p, q, r) at h in
              let e : c ≡ d = cc in
              rw (← e) (record {
                same_type = same_text-eq _ _ p;
                same_sha1 = same_text-eq _ _ q;
                same_name = same_text-eq _ _ r;
              })
        ]
      ]
    ]

module _ (remote : Remote) (max_backoff max_retries : ℕ) (unquote : Text → Text) where
  open remote use {World}

  abbrev Goal : Text → Text → Text → Outcome B2Error Uploaded × Session World → Type 0
  Goal filename content_type sha1 (returned c, s) = IsConfirmed unquote filename content_type sha1 c
  Goal filename content_type sha1 (raised e, s) = Unit

  check_uploaded-Goal :
      (filename content_type sha1 : Text) (s : Session World) (o : Outcome B2Error Uploaded)
      (c : Uploaded)
      → check_uploaded unquote filename content_type sha1 c ≡ o
      → Goal filename content_type sha1 (o, s)
  check_uploaded-Goal filename content_type sha1 s (returned d) c h =
      check_uploaded-IsConfirmed unquote filename content_type sha1 c d h
  check_uploaded-Goal filename content_type sha1 s (raised e) c h = tt

  after_upload-Goal :
      (url : UploadUrl) (data_ filename content_type sha1 : Text)
      (again : Option ℕ → Outcome B2Error Uploaded × Session World) (status : Option ℕ)
      (r : Reply Uploaded) (s : Session World)
      → ((code : Option ℕ) → Goal filename content_type sha1 (again code))
      → Goal filename content_type sha1 (
          after_upload remote max_backoff max_retries unquote url data_ filename content_type sha1
            again status r s)
  after_upload-Goal url data_ filename content_type sha1 again status (ok c) s g =
      check_uploaded-Goal filename content_type sha1 s _ c refl
  after_upload-Goal url data_ filename content_type sha1 again status (unreadable code) s g =
      g (some code)
  after_upload-Goal url data_ filename content_type sha1 again status (not_ok code) s g =
      g (some code)
  after_upload-Goal url data_ filename content_type sha1 again status failed s g = g status

  upload_loop-Goal :
      (url : UploadUrl) (data_ filename content_type sha1 : Text) (left backoff : ℕ)
      (status : Option ℕ) (s : Session World)
      → Goal filename content_type sha1 (
          upload_loop remote max_backoff max_retries unquote url data_ filename content_type sha1
            left backoff status s)
  unfolding upload_loop
  upload_loop-Goal url data_ filename content_type sha1 zero backoff status s = tt
  upload_loop-Goal url data_ filename content_type sha1 (suc left) backoff status s =
      let s' = record s {
        world = (remote.upload_file url data_ filename content_type sha1 s.world).1;
      } in
      let later = sleep remote max_backoff max_retries backoff s' in
      after_upload-Goal url data_ filename content_type sha1 _ status _ s' λ code.
        upload_loop-Goal url data_ filename content_type sha1 left
          (next_backoff max_backoff backoff) code later

  upload_to-Goal :
      (data_ filename sha1 : Text) (kind : Outcome B2Error Text)
      (u : Outcome B2Error UploadUrl × Session World) (c : Uploaded) (t : Session World)
      → upload_to remote max_backoff max_retries unquote data_ filename sha1 kind u
        ≡ (returned c, t)
      → (k : Text) × (kind ≡ returned k) × IsConfirmed unquote filename k sha1 c
  upload_to-Goal data_ filename sha1 kind (raised e, s) c t h = cc
  upload_to-Goal data_ filename sha1 (raised e) (returned url, s) c t h = cc
  upload_to-Goal data_ filename sha1 (returned k) (returned url, s) c t h = (
    k,
    refl,
    subst (Goal filename k sha1) h
        (upload_loop-Goal url data_ filename k sha1 max_retries 1 none s),
  )

  -- When `b2_upload` returns, after however many failures, the content that it returns names the
  -- file name and the hash that were asked for, the hash of the data if none was given, and the
  -- content type that was given or found for the name.
  pub b2_upload-IsConfirmed :
      (sha1_of : Text → Text) (mime_types : Dict Text Text) (data_ filename : Text)
      (content_type sha1 : Option Text) (s t : Session World) (c : Uploaded)
      → b2_upload remote max_backoff max_retries unquote sha1_of mime_types data_ filename
          content_type sha1 s
        ≡ (returned c, t)
      → (k : Text) × (choose_type remote max_backoff max_retries mime_types filename content_type
          ≡ returned k)
        × IsConfirmed unquote filename k
            (choose_sha1 remote max_backoff max_retries sha1_of data_ sha1)
            c
  unfolding b2_upload
  b2_upload-IsConfirmed sha1_of mime_types data_ filename content_type sha1 s t c h =
      upload_to-Goal data_ filename _ _ (obtain_upload_url remote max_backoff max_retries s) c t h
