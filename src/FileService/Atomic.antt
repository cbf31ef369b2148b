-- ===== src/FileService/Atomic.antt =====
-- lied/src/file_service.rs: a request stores both the row and the object, or neither.
use lied.Prelude.{
  ℕ, ◌≡◌, ◌⊎◌, refl, subst, false, not, Option, some, [], ◌∷◌, ◌++◌, inl, inr, Result, ok, err,
  keep, length, All, All-imp, Result-cases, Option-cases, ◌==◌, arith, find-snoc, keep-snoc,
}
use lied.Prelude.Text.{Text}
use lied.Sql.{collides}
use lied.Sql.Kept.{insert-Pairs}
use lied.Storage.{StorageError, Chunks, Store, put, part_size}
use lied.Storage.Upload.{joined, upload_streaming_lem}
use lied.Domain.File.{
  File, Table, NewFile, indexes, slot_of, row_of, is_at, create, find_by_location, hard_delete,
}
use lied.Domain.File.Slots.{IsUnique, apart_parts, flip, create_lem, same_slot_refl, same_slot_sym}
use lied.Domain.File.Name.{format_and_ext_for_mime, name_stem}
use lied.Domain.File.Slugs.{PathSlugs, resolve_path_slugs}
use lied.FileService.{
  State, World, Stored, UploadError, map_file_error, map_storage_error, key_of, new_upload, stream,
  insert_upload, store_upload,
}

-- The key is the one that every reader derives from the file.
pub record HasKey (state : State) (file : File) (key : Text) : Type 0 where
  pub slugs : PathSlugs
  pub ext : Text
  pub path : resolve_path_slugs state.tree file.arrangement_id file.voice_id ≡ some slugs
  pub agrees : format_and_ext_for_mime file.mime_type ≡ some (file.format, ext)
  pub derived : key ≡ key_of slugs file.name ext

-- The object at the key is the whole body, and the other objects are as they were.
pub record HasObject (state : State) (source : Chunks) (before : Store) (s : Stored) (after : Store)
    : Type 0 where
  pub body : Text
  pub read : joined state.max_upload_bytes 0 source ≡ ok body
  pub bytes : s.bytes ≡ length body
  pub object : after ≡ put s.key body before

-- The stream stores the body and counts it, or leaves the objects.
pub stream_lem :
    (state : State) (source : Chunks) (before : Store) (key : Text) (file : File)
    → ((bytes : ℕ) × (after : Store) × (stream state key source before ≡ (ok bytes, after))
        × HasObject state source before (record { file = file; bytes = bytes; key = key }) after)
      ⊎ ((e : StorageError) × (stream state key source before ≡ (err e, before)))
stream_lem state source before key file =
    elim (upload_streaming_lem state.client part_size key state.max_upload_bytes source before
      (omega arith)) [
        | inr (e, _) ↦ inr (_, e)
        | inl e ↦ elim (Result-cases (joined state.max_upload_bytes 0 source)) [
          | inl (body, j) ↦ inl (
            length body,
            put key body before,
            rw j at e,
            record { body = body; read = j; bytes = refl; object = refl },
          )
          | inr (x, j) ↦ inr (x, rw j at e)
        ]
      ]

-- What a successful request leaves: the file is found in its slot, the other rows are as they were.
pub record IsStored (state : State) (id : ℕ) (source : Chunks) (before : World) (s : Stored)
    (after : World) : Type 0 where
  pub same_id : s.file.id ≡ id
  pub found : find_by_location (slot_of s.file) after.files ≡ some s.file
  pub others : keep (λ f. not (f.id == id)) after.files ≡ before.files
  pub key : HasKey state s.file s.key
  pub object : HasObject state source before.objects s after.objects

pub data IsAtomic (state : State) (id : ℕ) (source : Chunks) (before : World)
    : Result UploadError Stored × World → Type 0 where
  done :
      (s : Stored) (after : World)
      → IsStored state id source before s after
      → IsAtomic state id source before (ok s, after)
  nothing : (e : UploadError) → IsAtomic state id source before (err e, before)

-- A row that has been inserted is alone in its slot and with its id.
module _ (now id : ℕ) (new : NewFile) (rows : Table)
    (free : All (λ f. collides indexes (row_of now id new) f ≡ false) rows) where
  abbrev row : File
  row = row_of now id new

  pub find-inserted : find_by_location (slot_of row) (rows ++ row ∷ []) ≡ some row
  unfolding find_by_location
  find-inserted =
      find-snoc (is_at (slot_of row)) row rows
        (All-imp (λ f. collides indexes row f ≡ false) _
          (λ f h.
            let (_, c) = apart_parts row f h in
            ground (arith, same_slot_sym (slot_of row) (slot_of f)))
          rows free)
        (rw (same_slot_refl (slot_of row)) refl)

  pub keep-inserted : keep (λ f. not (f.id == id)) (rows ++ row ∷ []) ≡ rows
  keep-inserted =
      keep-snoc (λ f. not (f.id == id)) row rows
        (All-imp (λ f. collides indexes row f ≡ false) _
          (λ f h. let (i, _) = apart_parts row f h in ground arith) rows free)
        (ground arith)

-- The checks give a row and the key that is derived from it.
new_upload_key :
    (state : State) (arrangement : ℕ) (voice : Option ℕ) (file_name mime : Text)
    (created_by : Option ℕ) (now id : ℕ) {new : NewFile} {key : Text}
    → new_upload state arrangement voice file_name mime created_by ≡ ok (new, key)
    → HasKey state (row_of now id new) key
unfolding new_upload
new_upload_key state arrangement voice file_name mime created_by now id {new} {key} e =
    elim (Option-cases (format_and_ext_for_mime mime)) [
      | inl f ↦ let e' = rw (new_upload, f) at e in absurd (cc)
      | inr ((format, ext), f) ↦ elim (Option-cases (name_stem file_name)) [
        | inl n ↦ let e' = rw (new_upload, f, n) at e in absurd (cc)
        | inr (name, n) ↦ elim (Option-cases (resolve_path_slugs state.tree arrangement voice)) [
          | inl p ↦ let e' = rw (new_upload, f, n, p) at e in absurd (cc)
          | inr (slugs, p) ↦
              let e' = rw (new_upload, f, n, p) at e in
              let same = λ (q : NewFile × Text). HasKey state (row_of now id q.0) q.1 in
              subst same (ok-injective e')
                (record { slugs = slugs; ext = ext; path = p; agrees = f; derived = refl })
        ]
      ]
    ]
  where
    ok-injective :
        {a b : NewFile × Text} → ◌≡◌ {A = Result UploadError (NewFile × Text)} (ok a) (ok b) → a ≡ b
    ok-injective h = cc

module _ (state : State) (now id : ℕ) (source : Chunks) (world : World)
    (unique : IsUnique world.files) where
  insert_upload-IsAtomic :
      (new : NewFile) (key : Text)
      → HasKey state (row_of now id new) key
      → IsAtomic state id source world (insert_upload state now id new key source world)
  unfolding hard_delete
  insert_upload-IsAtomic new key has_key =
      elim (Result-cases (create state.references now id new world.files)) [
        | inr (e, c) ↦ rw (insert_upload, c) (nothing (map_file_error e))
        | inl ((f, rows), c) ↦
            let (same, put_row) = create_lem state.references now id new world.files c in
            let (_, shape, free) =
              insert-Pairs indexes flip (row_of now id new) world.files unique put_row in
            elim (stream_lem state source world.objects key (row_of now id new)) [
              | inl (bytes, after, s, object) ↦
                  rw (insert_upload, c, same, s, ← shape)
                    (done _ _ (record {
                      same_id = refl;
                      found = find-inserted now id new world.files free;
                      others = keep-inserted now id new world.files free;
                      key = has_key;
                      object = object;
                    }))
              | inr (e, s) ↦
                  rw (insert_upload, c, s, ← shape, keep-inserted now id new world.files free)
                    (nothing (map_storage_error e))
            ]
      ]

  -- `store_upload` stores everything or nothing, for a table that keeps its unique indexes. If it
  -- succeeds, the file with the new id is found in its slot and the other rows are as before; the
  -- key is the one derived from the path of the file, its name and its media type, and the object
  -- there is the whole body, whose length is returned, while the other objects are as before. If
  -- it fails, whatever the storage refused, the rows and the objects are those from before.
  pub store_upload-IsAtomic :
      (arrangement : ℕ) (voice : Option ℕ) (file_name mime : Text) (created_by : Option ℕ)
      → IsAtomic state id source world
          (store_upload state now id arrangement voice file_name mime created_by source world)
  unfolding store_upload
  store_upload-IsAtomic arrangement voice file_name mime created_by =
      elim (Result-cases (new_upload state arrangement voice file_name mime created_by)) [
        | inr (e, n) ↦ rw (store_upload, n) (nothing e)
        | inl ((new, key), n) ↦
            rw (store_upload, n)
              (insert_upload-IsAtomic new key
                (new_upload_key state arrangement voice file_name mime created_by now id n))
      ]
