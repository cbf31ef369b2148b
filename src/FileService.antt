-- ===== src/FileService.antt =====
-- lied/src/file_service.rs: a row and its object are stored together, for the JSON routes and the
-- console. The calls of one request are not interleaved with those of another.
pub mod Bytes
pub mod Atomic
pub mod Replacement
mod Examples
use lied.Prelude.{
  ℕ, Bool, true, false, ◌&&◌, Option, none, some, List, ◌++◌, ◌∷◌, [], Result, ok, err, ◌>>=◌, ◌>>◌,
  guard,
}
use lied.Prelude.Text.{Text, codes, text_eq}
use lied.Storage
use lied.Storage.{StorageError, Client, Chunks, Store, part_size, upload_streaming}
use lied.Domain.File.{
  File, FileError, Table, NewFile, References, create, replace, hard_delete, restore_replaced,
}
use lied.Domain.File
use lied.Domain.File.Name.{format_and_ext_for_mime, name_stem, derived_key}
use lied.Domain.File.Slugs.{Tree, PathSlugs, resolve_path_slugs}

-- What the requests share and do not change: the storage, the limit, and the other tables.
pub record State : Type 0 where
  pub client : Client
  pub max_upload_bytes : ℕ
  pub references : References
  pub tree : Tree

-- What they change.
pub record World : Type 0 where
  pub files : Table
  pub objects : Store

pub record Stored : Type 0 where
  pub file : File
  pub bytes : ℕ
  pub key : Text

pub data UploadError : Type 0 where
  unsupported_mime stored_mime_unknown format_mismatch : Text → UploadError
  empty_name duplicate not_found replace_target_gone db : UploadError
  too_large : ℕ → UploadError
  storage : StorageError → UploadError

unfoldable pub map_file_error : FileError → UploadError
map_file_error File.FileError.duplicate = duplicate
map_file_error File.FileError.replace_target_gone = replace_target_gone
map_file_error File.FileError.superseded = replace_target_gone
map_file_error File.FileError.unsupported_mime = stored_mime_unknown (codes "unknown")
map_file_error File.FileError.database = db

unfoldable pub map_storage_error : StorageError → UploadError
map_storage_error (Storage.StorageError.too_large limit) = too_large limit
map_storage_error other = storage other

-- `ok_or`
abbrev pub ok_or {ℓ} : {A : Type ℓ} → Option A → UploadError → Result UploadError A
ok_or none e = err e
ok_or (some a) e = ok a

abbrev pub key_of : PathSlugs → Text → Text → Text
key_of slugs name ext = derived_key slugs.org_slug slugs.arrangement_slug slugs.voice_slug name ext

-- The checks before the row is inserted: the new row and its key.
unfoldable pub new_upload :
    State → ℕ → Option ℕ → Text → Text → Option ℕ → Result UploadError (NewFile × Text)
unfolding format_and_ext_for_mime name_stem resolve_path_slugs derived_key
new_upload state arrangement voice file_name mime created_by = do
  (format, ext) ← ok_or (format_and_ext_for_mime mime) (unsupported_mime mime)
  name ← ok_or (name_stem file_name) empty_name
  slugs ← ok_or (resolve_path_slugs state.tree arrangement voice) not_found
  ok (
    record {
      arrangement_id = arrangement;
      voice_id = voice;
      name = name;
      format = format;
      mime_type = mime;
      derived_from_file_id = none;
      conversion_quality = none;
      created_by = created_by;
    },
    key_of slugs name ext,
  )

-- After the stream: `rows` has the new row, `undone` is the table without it.
abbrev pub settle :
    Table → Table → File → Text → Result StorageError ℕ × Store → Result UploadError Stored × World
settle rows undone row key (ok bytes, objects) = (
  ok (record { file = row; bytes = bytes; key = key }),
  record { files = rows; objects = objects },
)
settle rows undone row key (err e, objects) =
    (err (map_storage_error e), record { files = undone; objects = objects })

abbrev pub stream : State → Text → Chunks → Store → Result StorageError ℕ × Store
stream state key source objects =
    upload_streaming state.client part_size key state.max_upload_bytes source objects

abbrev pub insert_upload :
    State → ℕ → ℕ → NewFile → Text → Chunks → World → Result UploadError Stored × World
insert_upload state now id new key source world =
    elim (create state.references now id new world.files) [
      | err e ↦ (err (map_file_error e), world)
      | ok (row, rows) ↦
          settle rows (hard_delete id rows).1 row key (stream state key source world.objects)
    ]

unfoldable pub store_upload :
    State
    → ℕ
    → ℕ
    → ℕ
    → Option ℕ
    → Text
    → Text
    → Option ℕ
    → Chunks
    → World
    → Result UploadError Stored × World
unfolding new_upload create hard_delete upload_streaming map_file_error map_storage_error
store_upload state now id arrangement voice file_name mime created_by source world =
    elim (new_upload state arrangement voice file_name mime created_by) [
      | err e ↦ (err e, world)
      | ok (new, key) ↦ insert_upload state now id new key source world
    ]

-- `"{old_format} (.{old_ext})"`
abbrev expected : Text → Text → Text
expected format ext = format ++ codes " (." ++ ext ++ codes ")"

-- The checks before the rows are swapped: the new row and the key of both.
unfoldable pub new_replacement :
    State → File → Text → Option ℕ → Result UploadError (NewFile × Text)
unfolding format_and_ext_for_mime resolve_path_slugs derived_key text_eq
new_replacement state old mime created_by = do
  (old_format, old_ext) ←
      ok_or (format_and_ext_for_mime old.mime_type) (stored_mime_unknown old.mime_type)
  (format, ext) ← ok_or (format_and_ext_for_mime mime) (unsupported_mime mime)
  guard (text_eq format old_format && text_eq ext old_ext)
      (format_mismatch (expected old_format old_ext))
  slugs ← ok_or (resolve_path_slugs state.tree old.arrangement_id old.voice_id) not_found
  ok (
    record {
      arrangement_id = old.arrangement_id;
      voice_id = old.voice_id;
      name = old.name;
      format = old_format;
      mime_type = old.mime_type;
      derived_from_file_id = old.derived_from_file_id;
      conversion_quality = old.conversion_quality;
      created_by = created_by;
    },
    key_of slugs old.name old_ext,
  )

-- A rollback that fails is logged, and leaves the rows as they are.
abbrev pub or_kept : Table → Result FileError Table → Table
or_kept rows (ok undone) = undone
or_kept rows (err e) = rows

abbrev pub swap_rows :
    State → ℕ → ℕ → ℕ → ℕ → NewFile → Text → Chunks → World → Result UploadError Stored × World
swap_rows state now later old id new key source world =
    elim (replace state.references now old id new world.files) [
      | err e ↦ (err (map_file_error e), world)
      | ok (row, rows) ↦
          settle rows (or_kept rows (restore_replaced later old id rows)) row key
            (stream state key source world.objects)
    ]

-- `later` is the clock of the rollback.
unfoldable pub store_replacement :
    State → ℕ → ℕ → ℕ → File → Text → Option ℕ → Chunks → World → Result UploadError Stored × World
unfolding new_replacement replace restore_replaced upload_streaming map_file_error map_storage_error
store_replacement state now later id old mime created_by source world =
    elim (new_replacement state old mime created_by) [
      | err e ↦ (err e, world)
      | ok (new, key) ↦ swap_rows state now later old.id id new key source world
    ]
