-- ===== src/WebDav/Fs/Write.antt =====
-- lied/src/webdav/fs.rs: what a request writes and removes. The storage takes each call or refuses it.
use lied.Prelude.{
  ℕ, Bool, true, false, Option, none, some, List, [], ◌∷◌, ◌++◌, Result, ok, err, ◌>>=◌, ◌>>◌,
  guard, if◌then◌else◌,
}
use lied.Prelude.Text.{Text, codes, text_eq}
use lied.Domain.AuditLog
use lied.Domain.AuditLog.{Value, Fields, Row, object, string, field, empty_object}
use lied.Storage
use lied.Storage.{StorageError, is_nil}
use lied.Domain.File
use lied.Domain.File.{File, Slot, find_by_location}
use lied.Domain.File.Name.{format_and_ext_for_mime, mime_for_ext, split_filename, derived_key}
use lied.WebDav.Path.{
  ResolvedPath, score_file, voice_file, annotations_user_dir, annotation_file, library_entry,
}
use lied.WebDav.Fs.{
  FsError, not_found, forbidden, general_failure, LiedFs, FsResult, ok_or, resolve_voice,
}
use lied.WebDav.Fs.Objects.{Server, annotation_key, library_key}
use lied.Storage.{Client, Store, upload_bytes}
use lied.Domain.File.{NewFile, References, create, replace, soft_delete, restore_replaced, slot_of}
use lied.FileService.{or_kept}
use lied.WebDav.Fs.{resolve_arr_for_write, voice_id_by_slug, too_large}
use lied.WebDav.Fs.Nodes.{require_own_library, find_row}

pub data WriteTarget : Type 0 where
  noop : WriteTarget
  org_file : ℕ → Slot → Text → Text → WriteTarget
  annotation : ℕ → ℕ → Text → Text → Text → Text → WriteTarget
  library : Text → Text → WriteTarget

-- What the server's storage and tables do with a write. `accepts` is the database's answer to a row of
-- the log, `log_id` the id of that row, and `uuid_text` the text of an id in JSON.
pub record Backend : Type 0 where
  pub client : Client
  pub head_object : Store → Text → Bool
  pub delete_object : Text → Bool
  pub references : References
  pub accepts : Row → Bool
  pub log_id : ℕ
  pub uuid_text : ℕ → Text

-- What a write changes.
pub record Disk : Type 0 where
  pub files : File.Table
  pub objects : Store
  pub audit : List Row

abbrev pub or_octets : Option Text → Text
or_octets none = codes "application/octet-stream"
or_octets (some mime) = mime

abbrev pub ext_of : Option (Text × Text) → Text
ext_of none = []
ext_of (some (stem, ext)) = ext

-- The media type of a file that is kept as it is.
unfoldable pub mime_of_name : Text → Text
unfolding split_filename mime_for_ext
mime_of_name filename = or_octets (mime_for_ext (ext_of (split_filename filename)))

abbrev pub last_name : List Text → Text
last_name [] = []
last_name (s ∷ []) = s
last_name (s ∷ t ∷ ss) = last_name (t ∷ ss)

unfoldable pub map_storage_write : StorageError → FsError
map_storage_write (Storage.StorageError.too_large limit) = too_large
map_storage_write e = general_failure

module _ (srv : Server) (fs : LiedFs) where
  -- The media type is the one of the extension, and so is the extension of the key.
  unfoldable pub org_write_target :
      ℕ → Text → Text → Option Text → ℕ → Option ℕ → Text → FsResult WriteTarget
  unfolding split_filename mime_for_ext format_and_ext_for_mime derived_key
  org_write_target org_id o a voice_slug arr_id voice_id filename = do
    (stem, ext) ← ok_or (split_filename filename) forbidden
    mime ← ok_or (mime_for_ext ext) forbidden
    (format, canonical) ← ok_or (format_and_ext_for_mime mime) forbidden
    ok (
        org_file org_id
          (record { arrangement_id = arr_id; voice_id = voice_id; name = stem; format = format })
          mime (derived_key o a voice_slug stem canonical))

  -- Only the author writes an annotation.
  abbrev pub require_author : Text → FsResult (Unit {0})
  require_author user = guard (text_eq user fs.user_slug) forbidden

  unfoldable pub resolve_write_target : ResolvedPath → FsResult WriteTarget
  unfolding resolve_arr_for_write voice_id_by_slug org_write_target text_eq resolve_voice
      annotation_key mime_of_name require_own_library library_key
  resolve_write_target (score_file o a file) = do
    (org_id, arr_id) ← resolve_arr_for_write srv.tables fs o a
    org_write_target org_id o a none arr_id none file
  resolve_write_target (voice_file o a v file) = do
    (org_id, arr_id) ← resolve_arr_for_write srv.tables fs o a
    voice_id ← ok_or (voice_id_by_slug srv.tables arr_id v) not_found
    org_write_target org_id o a (some v) arr_id (some voice_id) file
  resolve_write_target (annotation_file o a v user file) = do
    require_author user
    (org_id, _, voice_id, _) ← resolve_voice srv.tables fs o a v
    ok (annotation org_id voice_id user file (annotation_key o a v user file) (mime_of_name file))
  resolve_write_target (library_entry user rel) = do
    require_own_library srv fs user
    ok (library (library_key user rel) (mime_of_name (last_name rel)))
  resolve_write_target _ = err forbidden

  module _ (be : Backend) where
    abbrev pub audited : ℕ → Text → Text → Option ℕ → Fields → Disk → Disk
    audited org_id action target_kind target_id payload disk = record disk {
      audit =
          AuditLog.audit be.accepts be.log_id
            (record {
              actor_user_id = some fs.user_id;
              org_id = some org_id;
              request_id = fs.request_id;
            })
            action target_kind target_id (object payload) disk.audit;
    }

    abbrev text_field : Text → Text → Fields → Fields
    text_field key value rest = field key (string value) rest

    abbrev pub file_payload : Slot → Fields
    file_payload slot =
        text_field (codes "via") (codes "webdav") (
          text_field (codes "name") slot.name
            (text_field (codes "format") slot.format empty_object))

    abbrev pub annotation_payload : ℕ → Text → Text → Fields
    annotation_payload voice_id user name =
        text_field (codes "voiceId") (be.uuid_text voice_id)
          (text_field (codes "userSlug") user (text_field (codes "name") name empty_object))

    abbrev deleted : Text → Bool → Store → FsResult Store
    deleted key true objects = ok (λ k. if text_eq k key then none else objects k)
    deleted key false objects = err general_failure

    -- The row is hidden, and its object is kept.
    unfoldable pub remove_org_file : ℕ → ℕ → ℕ → Option ℕ → Text → Disk → FsResult Disk
    unfolding find_row soft_delete AuditLog.audit
    remove_org_file now org_id arr_id voice_id filename disk = do
      row ← find_row (record srv { files = disk.files }) fs arr_id voice_id filename
      ok (
          audited org_id (codes "file.delete") (codes "file") (some row.id)
            (text_field (codes "via") (codes "webdav") empty_object)
            (record disk { files = (soft_delete now row.id disk.files).1 }))

    unfoldable pub remove : ℕ → ResolvedPath → Disk → FsResult Disk
    unfolding resolve_arr_for_write voice_id_by_slug remove_org_file text_eq resolve_voice
        annotation_key require_own_library library_key AuditLog.audit
    remove now (score_file o a file) disk = do
      (org_id, arr_id) ← resolve_arr_for_write srv.tables fs o a
      remove_org_file now org_id arr_id none file disk
    remove now (voice_file o a v file) disk = do
      (org_id, arr_id) ← resolve_arr_for_write srv.tables fs o a
      voice_id ← ok_or (voice_id_by_slug srv.tables arr_id v) not_found
      remove_org_file now org_id arr_id (some voice_id) file disk
    remove now (annotation_file o a v user file) disk = do
      require_author user
      (org_id, _, voice_id, _) ← resolve_voice srv.tables fs o a v
      let key = annotation_key o a v user file
      objects ← deleted key (be.delete_object key) disk.objects
      ok (
          audited org_id (codes "personal_annotation.delete") (codes "personal_annotation") none
            (annotation_payload voice_id user file) (record disk { objects = objects }))
    remove now (library_entry user rel) disk = do
      require_own_library srv fs user
      let key = library_key user rel
      objects ← deleted key (be.delete_object key) disk.objects
      ok (record disk { objects = objects })
    remove now _ disk = err forbidden

    abbrev pub new_row : Slot → Text → NewFile
    new_row slot mime = record {
      arrangement_id = slot.arrangement_id;
      voice_id = slot.voice_id;
      name = slot.name;
      format = slot.format;
      mime_type = mime;
      derived_from_file_id = none;
      conversion_quality = none;
      created_by = some fs.user_id;
    }

    abbrev upload : Text → Text → Store → Result StorageError ℕ × Store
    upload key bytes objects = upload_bytes be.client key fs.max_upload_bytes bytes objects

    -- After the upload: `rows` has the new row, `undone` is what a rollback leaves.
    abbrev pub settle :
        ℕ
        → Text
        → ℕ
        → Slot
        → File.Table
        → File.Table
        → Disk
        → Result StorageError ℕ × Store
        → FsResult (Unit {0}) × Disk
    settle org_id action id slot rows undone disk (ok n, objects) = (
      ok tt,
      audited org_id action (codes "file") (some id) (file_payload slot)
          (record disk { files = rows; objects = objects }),
    )
    settle org_id action id slot rows undone disk (err e, objects) =
        (err (map_storage_write e), record disk { files = undone; objects = objects })

    abbrev pub write_new :
        ℕ → ℕ → ℕ → ℕ → Slot → Text → Text → Text → Disk → FsResult (Unit {0}) × Disk
    write_new now later id org_id slot mime key bytes disk =
        elim (create be.references now id (new_row slot mime) disk.files) [
          | err e ↦ (err general_failure, disk)
          | ok (row, rows) ↦
              settle org_id (codes "file.create") id slot rows (soft_delete later id rows).1 disk
                (upload key bytes disk.objects)
        ]

    abbrev pub write_over :
        ℕ → ℕ → ℕ → File → ℕ → Slot → Text → Text → Text → Disk → FsResult (Unit {0}) × Disk
    write_over now later id old org_id slot mime key bytes disk =
        elim (replace be.references now old.id id (new_row slot mime) disk.files) [
          | err e ↦ (err general_failure, disk)
          | ok (row, rows) ↦
              settle org_id (codes "file.replace") id slot rows
                (or_kept rows (restore_replaced later old.id id rows)) disk
                (upload key bytes disk.objects)
        ]

    abbrev after_upload : Disk → Disk → Result StorageError ℕ × Store → FsResult (Unit {0}) × Disk
    after_upload done disk (ok n, objects) = (ok tt, record done { objects = objects })
    after_upload done disk (err e, objects) =
        (err (map_storage_write e), record disk { objects = objects })

    abbrev pub annotation_action : Bool → Text
    annotation_action true = codes "personal_annotation.replace"
    annotation_action false = codes "personal_annotation.create"

    -- `now` and `later` are the clocks of the write and of its rollback, `id` is the new row's.
    unfoldable pub commit_write : ℕ → ℕ → ℕ → WriteTarget → Text → Disk → FsResult (Unit {0}) × Disk
    unfolding find_by_location create replace soft_delete restore_replaced upload_bytes
        map_storage_write AuditLog.audit
    commit_write now later id noop bytes disk = (ok tt, disk)
    commit_write now later id (org_file org_id slot mime key) bytes disk =
        elim (find_by_location slot disk.files) [
          | some old ↦ write_over now later id old org_id slot mime key bytes disk
          | none ↦ write_new now later id org_id slot mime key bytes disk
        ]
    commit_write now later id (annotation org_id voice_id user name key mime) bytes disk =
        after_upload
          (audited org_id (annotation_action (be.head_object disk.objects key))
            (codes "personal_annotation") none (annotation_payload voice_id user name) disk)
          disk (upload key bytes disk.objects)
    commit_write now later id (library key mime) bytes disk =
        after_upload disk disk (upload key bytes disk.objects)

    -- `MKCOL`: a marker in the library; the directory of an author is there without one.
    unfoldable pub create_dir : ResolvedPath → Disk → FsResult (Unit {0}) × Disk
    unfolding upload_bytes require_own_library library_key resolve_voice text_eq map_storage_write
    create_dir (library_entry user rel) disk = elim (require_own_library srv fs user) [
      | err e ↦ (err e, disk)
      | ok _ ↦ after_upload disk disk (upload (library_key user rel ++ b'/' ∷ []) [] disk.objects)
    ]
    create_dir (annotations_user_dir o a v user) disk =
        (do require_author user; _ ← resolve_voice srv.tables fs o a v; ok tt, disk)
    create_dir _ disk = (err forbidden, disk)
