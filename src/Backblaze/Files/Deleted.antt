-- ===== src/Backblaze/Files/Deleted.antt =====
-- What `b2_delete_file_async` of kh_common/backblaze.py asks for, and what was answered.
use mathlib.Core.Path.{subst}
use kh_common.Prelude.{
  ℕ, zero, suc, ◌+◌, ◌≡◌, ◌≢◌, refl, sym, ap, ◌∙◌, Option, none, some, List, [], ◌∷◌, Bool, true,
  false, arith,
}
use kh_common.Prelude.Outcome.{returned}
use kh_common.Prelude.Text.{Text}
use kh_common.Backblaze.{Reply, ok, unreadable, not_ok, failed, File, Remote, Session, same_text}
use kh_common.Backblaze.Files.{
  after_reply, list_loop, delete_loop, counted, delete_files, as_bool, delete_listed, delete_file,
}

equal : (s t : Text) → same_text s t ≡ true → s ≡ t
equal s t h = ground arith

different : (s t : Text) → same_text s t ≡ false → s ≢ t
different s t h = ground arith

module _ (remote : Remote) where
  open remote use {World}

  -- A response with a status below 400, and any other reply
  abbrev pub IsOk : {A : Type 0} → Reply A → Type 0
  IsOk (ok a) = Unit
  IsOk (unreadable code) = Unit
  IsOk _ = ⊥

  abbrev pub IsError : {A : Type 0} → Reply A → Type 0
  IsError (not_ok code) = Unit
  IsError failed = Unit
  IsError _ = ⊥

  -- The reply to a request to delete this version, and the session after it
  abbrev pub reply_to : File → Session World → Reply (Unit {0})
  reply_to file s = (remote.delete_version s.credentials file.file_id file.file_name s.world).0

  abbrev pub after_delete : File → Session World → Session World
  after_delete file s = record s {
    world = (remote.delete_version s.credentials file.file_id file.file_name s.world).1;
  }

  -- Requests for one version, at most so many: the last was answered with a good status, or all failed.
  pub data Tried (file : File) : ℕ → Bool → Session World → Session World → Type 0 where
    given_up : {s : Session World} → Tried file 0 false s s
    deleted :
        {left : ℕ} {s : Session World}
        → IsOk (reply_to file s)
        → Tried file (suc left) true s (after_delete file s)
    again :
        {left : ℕ} {done : Bool} {s t : Session World}
        → IsError (reply_to file s)
        → Tried file left done (after_delete file s) t
        → Tried file (suc left) done s t

  on_reply :
      (left : ℕ) (file : File) (s : Session World) (reply : Reply (Unit {0}))
      (again_ : Bool × Session World)
      → reply_to file s ≡ reply
      → Tried file left again_.0 (after_delete file s) again_.1
      → Tried file
          (suc left)
          (after_reply again_ reply (after_delete file s)).0
          s
          (after_reply again_ reply (after_delete file s)).1
  unfolding after_reply
  on_reply left file s (ok u) again_ e t = deleted (subst IsOk (sym e) tt)
  on_reply left file s (unreadable code) again_ e t = deleted (subst IsOk (sym e) tt)
  on_reply left file s (not_ok code) again_ e t = again (subst IsError (sym e) tt) t
  on_reply left file s failed again_ e t = again (subst IsError (sym e) tt) t

  -- The versions of a list, one after the other: the number of those for which a request succeeded.
  -- Those with another name are passed over.
  pub data Went (filename : Text) (retries : ℕ)
      : List File → ℕ → Session World → Session World → Type 0 where
    over : {s : Session World} → Went filename retries [] 0 s s
    other_name :
        {file : File} {files : List File} {n : ℕ} {s t : Session World}
        → file.file_name ≢ filename
        → Went filename retries files n s t
        → Went filename retries (file ∷ files) n s t
    same_name :
        {file : File} {files : List File} {n : ℕ} {done : Bool} {s t u : Session World}
        → file.file_name ≡ filename
        → Tried file retries done s t
        → Went filename retries files n t u
        → Went filename retries (file ∷ files) (counted done n) s u

  module _ (max_backoff max_retries : ℕ) where
    delete_loop-Tried :
        (left : ℕ) (file : File) (s : Session World)
        → Tried file left
            (delete_loop remote max_backoff max_retries left file s).0
            s
            (delete_loop remote max_backoff max_retries left file s).1
    unfolding delete_loop
    delete_loop-Tried zero file s = given_up
    delete_loop-Tried (suc left) file s =
        on_reply left file s (reply_to file s) _ refl
          (delete_loop-Tried left file (after_delete file s))

    counted_later : (done : Bool) (d n : ℕ) → counted done d + n ≡ d + counted done n
    counted_later true d n = omega arith
    counted_later false d n = refl

    abbrev Counted : Text → List File → ℕ → Session World → ℕ × Session World → Type 0
    Counted filename files d s r = (n : ℕ) × (r.0 ≡ d + n) × Went filename max_retries files n s r.1

    -- What becomes of a version, by whether it has the name
    went_on :
        (filename : Text) (file : File) (files : List File) (d : ℕ) (s : Session World) (b : Bool)
        → same_text file.file_name filename ≡ b
        → ((d : ℕ) (s : Session World)
            → Counted filename files d s
                (delete_files remote max_backoff max_retries filename files d s))
        → Counted filename (file ∷ files) d s (elim b [
          | false ↦ delete_files remote max_backoff max_retries filename files d s
          | true ↦
              let (done, s') = delete_loop remote max_backoff max_retries max_retries file s in
              delete_files remote max_backoff max_retries filename files (counted done d) s'
        ])
    went_on filename file files d s false p rest =
        let (n, e, w) = rest d s in (n, e, other_name (different file.file_name filename p) w)
    went_on filename file files d s true p rest =
        let r = delete_loop remote max_backoff max_retries max_retries file s in
        let (n, e, w) = rest (counted r.0 d) r.1 in
        (
          counted r.0 n,
          e ∙ counted_later r.0 d n,
          same_name (equal file.file_name filename p) (delete_loop-Tried max_retries file s) w,
        )

    delete_files-Went :
        (filename : Text) (files : List File) (d : ℕ) (s : Session World)
        → Counted filename files d s
            (delete_files remote max_backoff max_retries filename files d s)
    unfolding delete_files
    delete_files-Went filename [] d s = (0, omega arith, over)
    delete_files-Went filename (file ∷ files) d s =
        went_on filename file files d s (same_text file.file_name filename) refl
          (delete_files-Went filename files)

    listed :
        (filename : Text) (r : Option (List File) × Session World) (t : Session World) (b : Bool)
        → delete_listed remote max_backoff max_retries filename r ≡ (returned b, t)
        → (files : List File) × (s' : Session World) × (n : ℕ) × (r ≡ (some files, s'))
          × Went filename max_retries files n s' t
          × (b ≡ as_bool n)
    listed filename (none, s) t b h = cc
    listed filename (some [], s) t b h = cc
    listed filename (some (file ∷ files), s) t b h =
        let (n, e, w) = delete_files-Went filename (file ∷ files) 0 s in
        let d = delete_files remote max_backoff max_retries filename (file ∷ files) 0 s in
        let same : d.1 ≡ t = cc in
        let result : as_bool d.0 ≡ b = cc in
        let number : d.0 ≡ n = omega arith in
        (
          file ∷ files,
          s,
          n,
          refl,
          subst (Went filename max_retries (file ∷ files) n s) same w,
          sym result ∙ ap as_bool number,
        )

    -- When the deletion of a file returns, versions were listed, and it went through them in their
    -- order: a version with another name was passed over, and for one with exactly that name requests
    -- to delete it were made until one was answered with a good status, at most `max_retries`. It
    -- returns True exactly if there is a version for which a request was answered so.
    pub delete_file-IsNamed :
        (filename : Text) (s t : Session World) (b : Bool)
        → delete_file remote max_backoff max_retries filename s ≡ (returned b, t)
        → (files : List File) × (s' : Session World) × (n : ℕ) × (list_loop remote max_backoff
              max_retries max_retries filename s
            ≡ (some files, s'))
          × Went filename max_retries files n s' t
          × (b ≡ as_bool n)
    unfolding delete_file
    delete_file-IsNamed filename s t b h = listed filename _ t b h
