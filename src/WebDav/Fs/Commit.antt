-- ===== src/WebDav/Fs/Commit.antt =====
-- `commit_write` of lied/src/webdav/fs.rs: a file that is written is stored, or nothing is seen of it.
pub mod Logs
use lied.WebDav.Fs.Commit.Logs.{
  entry_of, IsLogged, strings, redact-file_payload, redact-annotation_payload, audited_lem,
}
use lied.Prelude.{
  ℕ, ◌≤◌, ◌+◌, ◌≡◌, ◌⊎◌, refl, sym, ◌∙◌, ap, Bool, true, false, Option, none, some, List, is_some,
  [], ◌∷◌, ◌++◌, inl, inr, map, Result, ok, err, leb, length, All, All-imp, Bool-cases,
  Result-cases, Option-cases, arith, if◌then◌else◌,
}
use mathlib.Core.List.{append-nil, map-append}
use lied.Prelude.Text.{Text, codes, text_eq}
use lied.Domain.AuditLog
use lied.Domain.AuditLog.{Row, Fields, object, string, field, empty_object, redact, is_redacted}
use lied.Sql.{collides}
use lied.Sql.Kept.{insert-Pairs}
use lied.Storage.{StorageError, too_large, Store, put, part_size, upload_bytes}
use lied.Storage.Upload.{joined, stored, upload_streaming_lem}
use lied.Domain.File.{
  File, Table, Slot, NewFile, indexes, is_live_id, row_of, removed, remove_where, create, replace,
  soft_delete, find_by_location,
}
use lied.Domain.File.Slots.{
  IsUnique, flip, create_lem, replace_lem, remove_where-IsUnique, apart_parts,
}
use lied.Domain.File.Rollback.{live_rows, live_rows-snoc, map-same, replace-restored}
use lied.FileService.Atomic.{find-inserted}
use lied.WebDav.Fs.{FsResult, FsError, LiedFs, general_failure}
use lied.WebDav.Fs.Objects.{Server}
use lied.WebDav.Fs.Write.{
  WriteTarget, noop, org_file, annotation, library, Backend, Disk, map_storage_write, new_row,
  settle, write_new, write_over, commit_write, audited, file_payload, annotation_payload,
  annotation_action,
}

-- What a write of these bytes to a target leaves.
pub data IsCommit (fs : LiedFs) (be : Backend) (id : ℕ) (bytes : Text) (before : Disk)
    : WriteTarget → FsResult (Unit {0}) × Disk → Type 0 where
  ignored : IsCommit fs be id bytes before noop (ok tt, before)
  file_stored :
      (org_id : ℕ) (slot : Slot) (mime key : Text) (file : File) (after : Disk)
      → find_by_location slot after.files ≡ some file
      → (file.id ≡ id) × (file.mime_type ≡ mime) × (file.created_by ≡ some fs.user_id)
      → after.objects ≡ put key bytes before.objects
      → IsLogged be
          (entry_of fs be org_id
            (if is_some (find_by_location slot before.files)
              then codes "file.replace"
              else codes "file.create")
            (codes "file")
            (some id)
            (strings (
              (codes "via", codes "webdav")
              ∷ (codes "name", slot.name)
              ∷ (codes "format", slot.format)
              ∷ [])))
          before.audit
          after.audit
      → length bytes ≤ fs.max_upload_bytes
      → IsCommit fs be id bytes before (org_file org_id slot mime key) (ok tt, after)
  annotation_stored :
      (org_id voice_id : ℕ) (user name key mime : Text) (log : List Row)
      → IsLogged be
          (entry_of fs be org_id
            (if be.head_object before.objects key
              then codes "personal_annotation.replace"
              else codes "personal_annotation.create")
            (codes "personal_annotation")
            none
            (strings (
              (codes "voiceId", be.uuid_text voice_id)
              ∷ (codes "userSlug", user)
              ∷ (codes "name", name)
              ∷ [])))
          before.audit
          log
      → length bytes ≤ fs.max_upload_bytes
      → IsCommit fs be id bytes before (annotation org_id voice_id user name key mime) (
        ok tt,
        record { files = before.files; objects = put key bytes before.objects; audit = log },
      )
  library_stored :
      (key mime : Text)
      → length bytes ≤ fs.max_upload_bytes
      → IsCommit fs be id bytes before
          (library key mime)
          (ok tt, record before { objects = put key bytes before.objects })
  unseen :
      (target : WriteTarget) (e : FsError) (after : Disk)
      → live_rows after.files ≡ live_rows before.files
      → after.objects ≡ before.objects
      → after.audit ≡ before.audit
      → IsCommit fs be id bytes before target (err e, after)

module _ (be : Backend) (key : Text) (max : ℕ) (bytes : Text) (before : Store) where
  abbrev uploaded : Result StorageError ℕ × Store
  uploaded = upload_bytes be.client key max bytes before

  -- The upload of one chunk.
  joined_one : (leb (0 + length bytes) max ≡ true) → joined max 0 (ok bytes ∷ []) ≡ ok bytes
  unfolding joined
  joined_one fits = rw fits (ap ok (append-nil bytes))

  joined_large :
      (leb (0 + length bytes) max ≡ false) → joined max 0 (ok bytes ∷ []) ≡ err (too_large max)
  unfolding joined
  joined_large large = rw large refl

  upload_bytes_lem :
      ((uploaded ≡ (ok (length bytes), put key bytes before)) × (length bytes ≤ max))
      ⊎ ((e : StorageError) × (uploaded ≡ (err e, before)))
  unfolding upload_bytes
  upload_bytes_lem =
      elim (upload_streaming_lem be.client part_size key max (ok bytes ∷ []) before (omega arith)) [
        | inr (e, _) ↦ inr (_, e)
        | inl e ↦ elim (Bool-cases (leb (0 + length bytes) max)) [
          | inl fits ↦ inl (e ∙ ap (stored key before) (joined_one fits), ground arith)
          | inr large ↦ inr (_, e ∙ ap (stored key before) (joined_large large))
        ]
      ]

module _ (srv : Server) (fs : LiedFs) (be : Backend) (now later id org_id : ℕ) (slot : Slot)
    (mime key bytes : Text) (disk : Disk) (unique : IsUnique disk.files) where
  abbrev new : NewFile
  new = new_row srv fs be slot mime

  abbrev row : File
  row = row_of now id new

  abbrev Committed : FsResult (Unit {0}) × Disk → Type 0
  Committed = IsCommit fs be id bytes disk (org_file org_id slot mime key)

  settled :
      (action : Text) (rows rest undone : Table)
      → rows ≡ rest ++ row ∷ []
      → All (λ f. collides indexes row f ≡ false) rest
      → live_rows undone ≡ live_rows disk.files
      → (if is_some (find_by_location slot disk.files)
          then codes "file.replace"
          else codes "file.create")
        ≡ action
      → Committed (
          settle srv fs be org_id action id slot rows undone disk
            (upload_bytes be.client key fs.max_upload_bytes bytes disk.objects))
  settled action rows rest undone shape free seen named =
      elim (upload_bytes_lem be key fs.max_upload_bytes bytes disk.objects) [
        | inl (e, fits) ↦ rw e (
            file_stored org_id slot mime key row _ (rw shape (find-inserted now id new rest free))
              (refl, refl, refl) refl
              (rw named (
                audited_lem srv fs be org_id action (codes "file") (some id)
                  (file_payload srv fs be slot) disk (redact-file_payload srv fs be slot)))
              fits)
        | inr (x, e) ↦ rw e (unseen _ (map_storage_write x) _ seen refl refl)
      ]

  write_new-IsCommit :
      find_by_location slot disk.files ≡ none
      → Committed (write_new srv fs be now later id org_id slot mime key bytes disk)
  unfolding soft_delete
  write_new-IsCommit vacant = elim (Result-cases (create be.references now id new disk.files)) [
    | inr (e, c) ↦ rw (write_new, c) (unseen _ general_failure disk refl refl refl)
    | inl ((f, rows), c) ↦
        let (_, put_row) = create_lem be.references now id new disk.files c in
        let (_, shape, free) = insert-Pairs indexes flip row disk.files unique put_row in
        rw (write_new, c)
          (settled (codes "file.create") rows disk.files (soft_delete later id rows).1 (sym shape)
            free
            (ap (λ rs. live_rows (remove_where later (is_live_id id) rs)) (sym shape)
              ∙ hidden_again disk.files free)
            (rw vacant refl))
  ]
    where
      hidden_again :
          (rest : Table)
          → All (λ f. collides indexes row f ≡ false) rest
          → live_rows (remove_where later (is_live_id id) (rest ++ row ∷ [])) ≡ live_rows rest
      hidden_again rest free =
          let write = λ (f : File). if is_live_id id f then removed later f else f in
          let here : is_live_id id row ≡ true = ground arith in
          let others = map-same write rest (
            All-imp (λ f. collides indexes row f ≡ false) (λ f. write f ≡ f)
              (λ f h.
                let (i, _) = apart_parts row f h in
                let n : is_live_id id f ≡ false = ground arith in rw n refl)
              rest free) in
          let shape : map write (rest ++ row ∷ []) ≡ rest ++ removed later row ∷ [] =
            map-append write rest (row ∷ []) ∙ rw (others, here) refl in
          ap live_rows shape ∙ live_rows-snoc rest (removed later row) refl

  write_over-IsCommit :
      (old : File)
      → find_by_location slot disk.files ≡ some old
      → Committed (write_over srv fs be now later id old org_id slot mime key bytes disk)
  write_over-IsCommit old taken =
      elim (Result-cases (replace be.references now old.id id new disk.files)) [
        | inr (e, c) ↦ rw (write_over, c) (unseen _ general_failure disk refl refl refl)
        | inl ((f, rows), c) ↦
            let (there, made) = replace_lem be.references now id new disk.files old.id c in
            let rest = remove_where now (is_live_id old.id) disk.files in
            let (_, put_row) = create_lem be.references now id new rest made in
            let (_, shape, free) =
              insert-Pairs indexes flip row rest
                (remove_where-IsUnique now (is_live_id old.id) disk.files unique) put_row in
            let (out, back, seen) =
              replace-restored be.references now later old.id id new disk.files unique c in
            rw (write_over, c, back)
              (settled (codes "file.replace") rows rest out (sym shape) free seen (rw taken refl))
      ]

  org_file-IsCommit :
      Committed (commit_write srv fs be now later id (org_file org_id slot mime key) bytes disk)
  unfolding commit_write
  org_file-IsCommit = elim (Option-cases (find_by_location slot disk.files)) [
    | inl e ↦ rw (commit_write, e) (write_new-IsCommit e)
    | inr (old, e) ↦ rw (commit_write, e) (write_over-IsCommit old e)
  ]

-- For a table that keeps its unique indexes, a write to the file system stores what it is about, or
-- fails and nothing is seen of it. A score or voice file that is stored is found in its slot with
-- the new id, the given media type and the user as its creator; of an annotation and of a file of
-- the library the rows are as before. The object at the key is then the data, which is not larger
-- than the limit, and the other objects are as before. For a file and an annotation the log gets
-- one entry, which says who created or replaced what in which organization, or the database refuses
-- that entry and the log is as before; for the library the log is as before. A write that fails, for
-- whatever reason, leaves the live rows from before, apart from the times of their last change, the
-- objects and the log. Files of the operating system that are ignored change nothing.
pub commit_write-IsCommit :
    (srv : Server) (fs : LiedFs) (be : Backend) (now later id : ℕ) (target : WriteTarget)
    (bytes : Text) (disk : Disk)
    → IsUnique disk.files
    → IsCommit fs be id bytes disk target (commit_write srv fs be now later id target bytes disk)
unfolding commit_write
commit_write-IsCommit srv fs be now later id noop bytes disk u = ignored
commit_write-IsCommit srv fs be now later id (org_file org_id slot mime key) bytes disk u =
    org_file-IsCommit srv fs be now later id org_id slot mime key bytes disk u
commit_write-IsCommit srv fs be now later id (annotation org_id voice_id user name key mime) bytes
      disk u =
    elim (upload_bytes_lem be key fs.max_upload_bytes bytes disk.objects) [
      | inl (e, fits) ↦
          let action = annotation_action srv fs be (be.head_object disk.objects key) in
          let payload = annotation_payload srv fs be voice_id user name in
          rw (commit_write, e)
            (annotation_stored org_id voice_id user name key mime _
              (rw (← action_lem (be.head_object disk.objects key)) (
                audited_lem srv fs be org_id action (codes "personal_annotation") none payload disk
                  (redact-annotation_payload srv fs be voice_id user name)))
              fits)
      | inr (x, e) ↦ rw (commit_write, e) (unseen _ (map_storage_write x) _ refl refl refl)
    ]
  where
    action_lem :
        (b : Bool)
        → annotation_action srv fs be b
          ≡ (if b then codes "personal_annotation.replace" else codes "personal_annotation.create")
    action_lem true = refl
    action_lem false = refl
commit_write-IsCommit srv fs be now later id (library key mime) bytes disk u =
    elim (upload_bytes_lem be key fs.max_upload_bytes bytes disk.objects) [
      | inl (e, fits) ↦ rw (commit_write, e) (library_stored key mime fits)
      | inr (x, e) ↦ rw (commit_write, e) (unseen _ (map_storage_write x) _ refl refl refl)
    ]
