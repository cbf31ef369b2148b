-- ===== src/FileService/Examples.antt =====
-- Tests of lied/src/file_service.rs: an upload to an empty library, and a replacement.
use lied.Prelude.{◌≡◌, All, refl, arith, true, none, some, [], ◌∷◌, ok, err}
use lied.Prelude.Text.{codes, text_eq}
use lied.Storage.{Chunks}
use lied.Storage.Examples.{without_part, nothing_stored}
use lied.Domain.File.{File, row_of}
use lied.Domain.File.Name.{format_and_ext_for_mime, name_stem}
use lied.Domain.File.Slugs.{resolve_path_slugs}
use lied.Domain.File.{is_live, slot_of, removed, revived, soft_delete}
use lied.Domain.File.Examples.{score, references, first, second, uploaded, swapped, came_back}
use lied.FileService.{
  State, World, unsupported_mime, empty_name, not_found, new_upload, store_upload,
  store_replacement,
}
use lied.FileService.Bytes.{
  Reach, Step, empty, next, replaced, deleted, restored, written_by, Reach-IsCurrent,
}
use lied.FileService.Atomic.{IsAtomic, store_upload-IsAtomic}
use lied.FileService.Replacement.{IsSwap, store_replacement-IsSwap}

abbrev state : State
state = record {
  client = without_part 9;
  max_upload_bytes = 100;
  references = references;
  tree = record {
    organizations = record { id = 5; slug = codes "acme" } ∷ [];
    arrangements =
        record { id = 21; organization_id = 5; slug = codes "bolero"; deleted_at = none } ∷ [];
    voices = record { id = 41; arrangement_id = 21; slug = codes "flute"; deleted_at = none } ∷ [];
  };
}

abbrev body : Chunks
body = ok (codes "%PDF") ∷ ok (codes "-1.4") ∷ []

abbrev bare : World
bare = record { files = []; objects = nothing_stored }

abbrev stored_score : File
stored_score = row_of 1 71 score

abbrev library : World
library = record { files = stored_score ∷ []; objects = nothing_stored }

refusals :
    (new_upload state 21 none (codes "bolero.txt") (codes "text/plain") none
      ≡ err (unsupported_mime (codes "text/plain")))
    × (new_upload state 21 none (codes " .pdf") (codes "application/pdf") none ≡ err empty_name)
    × (new_upload state 21 (some 42) (codes "a.pdf") (codes "application/pdf") none ≡ err not_found)
unfolding new_upload format_and_ext_for_mime name_stem resolve_path_slugs text_eq
refusals = (refl, refl, refl)

store_upload-IsAtomic_example : IsAtomic state 71 body bare (
    store_upload state 1 71 21 none
      (codes "bolero.pdf")
      (codes "application/pdf")
      (some 11)
      body
      bare)
store_upload-IsAtomic_example =
    store_upload-IsAtomic state 1 71 body bare tt 21 none (codes "bolero.pdf")
      (codes "application/pdf") (some 11)

store_replacement-IsSwap_example :
    IsSwap state 72 stored_score body library
      (store_replacement state 2 3 72 stored_score (codes "application/pdf") (some 11) body library)
store_replacement-IsSwap_example =
    store_replacement-IsSwap state 2 3 72 stored_score body library (tt, tt)
      (codes "application/pdf") (some 11)

-- An upload, its replacement, and the deletion and the restoration of the new file.
history : Reach (record {
  rows = removed 2 first ∷ revived 4 second ∷ [];
  writer = written_by score 72 (written_by score 71 (λ s. none));
})
unfolding soft_delete
history =
    next
      (next
        (next (next (empty (λ s. none)) (Step.uploaded references 1 71 score first tt uploaded))
          (replaced references 2 71 72 score second (omega arith, tt) swapped))
        (deleted 3 72))
      (restored 4 72 true came_back)

Reach-IsCurrent_example :
    All
      (λ f.
        is_live f ≡ true
        → written_by score 72 (written_by score 71 (λ s. none)) (slot_of f) ≡ some f.id)
      (removed 2 first ∷ revived 4 second ∷ [])
Reach-IsCurrent_example = Reach-IsCurrent history
