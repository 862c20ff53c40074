-- ===== src/Backblaze/Files.antt =====
-- `b2_delete_file_async` and `b2_get_file_info` of kh_common/backblaze.py.
pub mod Deleted
use kh_common.Prelude.{
  ℕ, zero, suc, ◌≡◌, refl, Option, none, some, List, [], ◌∷◌, Bool, true, false, if◌then◌else◌,
  ◌==◌, Bool-cases, inl, inr, arith,
}
use kh_common.Prelude.Lists.{All}
use kh_common.Prelude.Outcome.{Outcome, returned, raised}
use kh_common.Prelude.Text.{Text}
use kh_common.Backblaze.{
  B2Error, Reply, unbound_local, ok, unreadable, not_ok, failed, File, Remote, Session, same_text,
  authorize,
}

-- `deletes += 1`, if a request succeeded
abbrev pub counted : Bool → ℕ → ℕ
counted true deletes = suc deletes
counted false deletes = deletes

-- `bool(deletes)`
abbrev pub as_bool : ℕ → Bool
as_bool zero = false
as_bool (suc n) = true

-- What follows the reply to a request to delete a version, with `raise_for_status`; `again` is the rest
-- of the loop.
unfoldable pub after_reply :
    {World : Type 0}
    → Bool × Session World
    → Reply (Unit {0})
    → Session World
    → Bool × Session World
after_reply again (ok u) s = (true, s)
after_reply again (unreadable code) s = (true, s)
after_reply again (not_ok code) s = again
after_reply again failed s = again

module _ (remote : Remote) (max_backoff max_retries : ℕ) where
  open remote use {World}

  -- After a response that is not ok: its content has no files, and 401 asks for a new token, whose
  -- own failure is caught.
  abbrev pub renew : ℕ → Session World → Session World
  renew code s = if code == 401 then (authorize remote max_backoff max_retries s).1 else s

  -- The first loop of `b2_delete_file_async`: the files, or None
  unfoldable pub list_loop : ℕ → Text → Session World → Option (List File) × Session World
  list_loop zero filename s = (none, s)
  list_loop (suc left) filename s =
      let (reply, w) = remote.list_versions s.credentials filename s.world in
      let s' = record s { world = w } in
      elim reply [
        | ok files ↦ (some files, s')
        | unreadable code ↦ list_loop left filename s'
        | not_ok code ↦ list_loop left filename (renew code s')
        | failed ↦ list_loop left filename s'
      ]

  -- The inner loop: whether one of the requests for this version succeeded
  unfoldable pub delete_loop : ℕ → File → Session World → Bool × Session World
  unfolding after_reply
  delete_loop zero file s = (false, s)
  delete_loop (suc left) file s =
      let (reply, w) = remote.delete_version s.credentials file.file_id file.file_name s.world in
      let s' = record s { world = w } in after_reply (delete_loop left file s') reply s'

  -- The outer loop, with `deletes`
  unfoldable pub delete_files : Text → List File → ℕ → Session World → ℕ × Session World
  unfolding delete_loop
  delete_files filename [] deletes s = (deletes, s)
  delete_files filename (file ∷ files) deletes s = elim (same_text file.file_name filename) [
    | false ↦ delete_files filename files deletes s
    | true ↦
        let (done, s') = delete_loop max_retries file s in
        delete_files filename files (counted done deletes) s'
  ]

  -- `assert files`
  abbrev pub delete_listed :
      Text → Option (List File) × Session World → Outcome B2Error Bool × Session World
  delete_listed filename (none, s) = (raised B2Error.assertion_error, s)
  delete_listed filename (some [], s) = (raised B2Error.assertion_error, s)
  delete_listed filename (some (file ∷ files), s) =
      let (deletes, s') = delete_files filename (file ∷ files) 0 s in
      (returned (as_bool deletes), s')

  -- `b2_delete_file_async`
  unfoldable pub delete_file : Text → Session World → Outcome B2Error Bool × Session World
  unfolding list_loop delete_files
  delete_file filename s = delete_listed filename (list_loop max_retries filename s)

  -- `next(filter(…))`, whose StopIteration is answered by an `except` that reads an unbound `e`
  unfoldable pub first_named : Text → List File → Outcome B2Error (Option File)
  first_named filename [] = raised unbound_local
  first_named filename (file ∷ files) =
      if same_text file.file_name filename then returned (some file) else first_named filename files

  -- `b2_get_file_info`: None where every round fails
  unfoldable pub file_info :
      ℕ → Text → Session World → Outcome B2Error (Option File) × Session World
  unfolding first_named
  file_info zero filename s = (returned none, s)
  file_info (suc left) filename s =
      let (reply, w) = remote.list_versions s.credentials filename s.world in
      let s' = record s { world = w } in
      elim reply [
        | ok files ↦ (first_named filename files, s')
        | unreadable code ↦ file_info left filename s'
        | not_ok code ↦ file_info left filename (renew code s')
        | failed ↦ file_info left filename s'
      ]
