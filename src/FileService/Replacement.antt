-- ===== src/FileService/Replacement.antt =====
-- `store_replacement` of lied/src/file_service.rs swaps a file or leaves what can be seen.
use lied.Prelude.{
  ℕ, ◌≡◌, refl, subst, false, ◌&&◌, Option, none, some, [], ◌∷◌, ◌++◌, inl, inr, Result, ok, err,
  find, All-unmap, Bool-cases, Result-cases, Option-cases, ◌==◌, arith,
}
use lied.Prelude.Text.{Text, text_eq}
use lied.Sql.Kept.{insert-Pairs}
use lied.Storage.{Chunks}
use lied.Domain.File.{
  File, Table, NewFile, indexes, is_live_id, slot_of, row_of, removed, remove_where, replace,
  find_by_id, find_by_location,
}
use lied.Domain.File.Slots.{IsUnique, flip, create_lem, replace_lem, remove_where-IsUnique}
use lied.Domain.File.Rollback.{live_rows, replace-restored, gone, id-ne-old}
use lied.Domain.File.Name.{format_and_ext_for_mime}
use lied.Domain.File.Slugs.{resolve_path_slugs}
use lied.FileService.{
  State, World, Stored, UploadError, map_file_error, map_storage_error, new_replacement, swap_rows,
  store_replacement,
}
use lied.FileService.Atomic.{HasKey, HasObject, stream_lem, find-inserted}

-- What a successful replacement leaves.
pub record IsReplaced (state : State) (id : ℕ) (old : File) (source : Chunks) (before : World)
    (s : Stored) (after : World) : Type 0 where
  pub same_id : s.file.id ≡ id
  pub same_place :
      (s.file.arrangement_id ≡ old.arrangement_id)
      × (s.file.voice_id ≡ old.voice_id)
      × (s.file.name ≡ old.name)
      × (s.file.mime_type ≡ old.mime_type)
  pub provenance :
      (s.file.derived_from_file_id ≡ old.derived_from_file_id)
      × (s.file.conversion_quality ≡ old.conversion_quality)
  pub found : find_by_location (slot_of s.file) after.files ≡ some s.file
  pub old_gone : find_by_id old.id after.files ≡ none
  pub key : HasKey state s.file s.key
  pub object : HasObject state source before.objects s after.objects

pub data IsSwap (state : State) (id : ℕ) (old : File) (source : Chunks) (before : World)
    : Result UploadError Stored × World → Type 0 where
  swapped :
      (s : Stored) (after : World)
      → IsReplaced state id old source before s after
      → IsSwap state id old source before (ok s, after)
  unseen :
      (e : UploadError) (after : World)
      → live_rows after.files ≡ live_rows before.files
      → after.objects ≡ before.objects
      → IsSwap state id old source before (err e, after)

-- The checks give a row with what the old one has, at its key.
record IsCopy (state : State) (old : File) (now id : ℕ) (new : NewFile) (key : Text) : Type 0 where
  place :
      (new.arrangement_id ≡ old.arrangement_id)
      × (new.voice_id ≡ old.voice_id)
      × (new.name ≡ old.name)
      × (new.mime_type ≡ old.mime_type)
  provenance :
      (new.derived_from_file_id ≡ old.derived_from_file_id)
      × (new.conversion_quality ≡ old.conversion_quality)
  keyed : HasKey state (row_of now id new) key

new_replacement-IsCopy :
    (state : State) (old : File) (mime : Text) (created_by : Option ℕ) (now id : ℕ) {new : NewFile}
    {key : Text}
    → new_replacement state old mime created_by ≡ ok (new, key)
    → IsCopy state old now id new key
unfolding new_replacement
new_replacement-IsCopy state old mime created_by now id {new} {key} e =
    elim (Option-cases (format_and_ext_for_mime old.mime_type)) [
      | inl f ↦ let e' = rw (new_replacement, f) at e in absurd (cc)
      | inr ((format, ext), f) ↦ elim (Option-cases (format_and_ext_for_mime mime)) [
        | inl g ↦ let e' = rw (new_replacement, f, g) at e in absurd (cc)
        | inr ((format', ext'), g) ↦
            elim (Bool-cases (text_eq format' format && text_eq ext' ext)) [
              | inr t ↦ let e' = rw (new_replacement, f, g, t) at e in absurd (cc)
              | inl t ↦
                  elim (Option-cases
                    (resolve_path_slugs state.tree old.arrangement_id old.voice_id)) [
                      | inl p ↦ let e' = rw (new_replacement, f, g, t, p) at e in absurd (cc)
                      | inr (slugs, p) ↦
                          let e' = rw (new_replacement, f, g, t, p) at e in
                          subst (λ (q : NewFile × Text). IsCopy state old now id q.0 q.1)
                            (ok-injective e')
                            (record {
                              place = (refl, refl, refl, refl);
                              provenance = (refl, refl);
                              keyed = record {
                                slugs = slugs;
                                ext = ext;
                                path = p;
                                agrees = f;
                                derived = refl;
                              };
                            })
                    ]
            ]
      ]
    ]
  where
    ok-injective :
        {a b : NewFile × Text} → ◌≡◌ {A = Result UploadError (NewFile × Text)} (ok a) (ok b) → a ≡ b
    ok-injective h = cc

find-removed :
    (now old : ℕ) (rows : Table) (x : File)
    → (x.id == old) ≡ false
    → find (is_live_id old) (remove_where now (is_live_id old) rows ++ x ∷ []) ≡ none
find-removed now old [] x n = rw n refl
find-removed now old (f ∷ rows) x n = elim (Bool-cases (is_live_id old f)) [
  | inl e ↦
      let dead : is_live_id old (removed now f) ≡ false = ground arith in
      rw (e, dead) (find-removed now old rows x n)
  | inr e ↦ rw (e, e) (find-removed now old rows x n)
]

module _ (state : State) (now later id : ℕ) (old : File) (source : Chunks) (world : World)
    (unique : IsUnique world.files) where
  swap_rows-IsSwap :
      (new : NewFile) (key : Text)
      → IsCopy state old now id new key
      → IsSwap state id old source world (swap_rows state now later old.id id new key source world)
  unfolding find_by_id
  swap_rows-IsSwap new key copy =
      elim (Result-cases (replace state.references now old.id id new world.files)) [
        | inr (e, c) ↦ rw (swap_rows, c) (unseen (map_file_error e) world refl refl)
        | inl ((f, rows), c) ↦
            let (there, made) = replace_lem state.references now id new world.files old.id c in
            let rest = remove_where now (is_live_id old.id) world.files in
            let (same, put_row) = create_lem state.references now id new rest made in
            let (_, shape, free) =
              insert-Pairs indexes flip (row_of now id new) rest
                (remove_where-IsUnique now (is_live_id old.id) world.files unique) put_row in
            let (out, back, seen) =
              replace-restored state.references now later old.id id new world.files unique c in
            elim (stream_lem state source world.objects key (row_of now id new)) [
              | inl (bytes, after, s, object) ↦
                  rw (swap_rows, c, same, s, ← shape)
                    (swapped _ _ (record {
                      same_id = refl;
                      same_place = copy.place;
                      provenance = copy.provenance;
                      found = find-inserted now id new rest free;
                      old_gone = find-removed now old.id world.files (row_of now id new) (
                          id-ne-old now later old.id (row_of now id new) world.files
                            (All-unmap _ (gone now later old.id) world.files free) there);
                      key = copy.keyed;
                      object = object;
                    }))
              | inr (e, s) ↦ rw (swap_rows, c, s, back) (unseen (map_storage_error e) _ seen refl)
            ]
      ]

  -- For a table that keeps its unique indexes: if `store_replacement` succeeds, the old file is no
  -- longer live, and the new one, with the new id and the arrangement, voice, name, media type,
  -- source and quality of the old one, is found in its slot; its key is the one derived from it,
  -- and the object there is the whole body, while the other objects are as before. If it fails,
  -- whatever the storage refused, the live rows are those from before, apart from the times of
  -- their last change, and so are the objects.
  pub store_replacement-IsSwap :
      (mime : Text) (created_by : Option ℕ)
      → IsSwap state id old source world
          (store_replacement state now later id old mime created_by source world)
  unfolding store_replacement
  store_replacement-IsSwap mime created_by =
      elim (Result-cases (new_replacement state old mime created_by)) [
        | inr (e, n) ↦ rw (store_replacement, n) (unseen e world refl refl)
        | inl ((new, key), n) ↦
            rw (store_replacement, n)
              (swap_rows-IsSwap new key (new_replacement-IsCopy state old mime created_by now id n))
      ]
