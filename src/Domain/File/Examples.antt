-- ===== src/Domain/File/Examples.antt =====
-- Tests of lied/src/domain/file.rs on a score that is uploaded, replaced and restored.
use lied.Prelude.{◌≡◌, refl, true, none, some, [], ◌∷◌, ok, err}
use lied.Prelude.Text.{codes, text_eq}
use lied.Domain.File.{
  File, NewFile, References, row_of, removed, revived, create, replace, undelete, restore_replaced,
  superseded, duplicate, passes_checks, same_slot, find_by_id_including_deleted,
}
use lied.Domain.File.Name.{
  format_and_ext_for_mime, split_filename, name_stem, webdav_filename, derived_key,
}

abbrev pub score : NewFile
score = record {
  arrangement_id = 21;
  voice_id = none;
  name = codes "bolero";
  format = codes "pdf";
  mime_type = codes "application/pdf";
  derived_from_file_id = none;
  conversion_quality = none;
  created_by = some 11;
}

abbrev pub references : References
references = record { arrangements = 21 ∷ []; voices = 41 ∷ []; users = 11 ∷ [] }

abbrev pub first : File
first = row_of 1 71 score

abbrev pub second : File
second = row_of 2 72 score

pub uploaded : create references 1 71 score [] ≡ ok (first, first ∷ [])
unfolding create passes_checks text_eq
uploaded = refl

again : create references 2 72 score (first ∷ []) ≡ err duplicate
unfolding create passes_checks same_slot text_eq
again = refl

pub swapped :
    replace references 2 71 72 score (first ∷ []) ≡ ok (second, removed 2 first ∷ second ∷ [])
unfolding replace create passes_checks same_slot text_eq
swapped = refl

-- The old file comes back only when the new one is deleted and was not created later.
too_late : undelete 4 71 (removed 2 first ∷ removed 3 second ∷ []) ≡ err superseded
unfolding undelete find_by_id_including_deleted same_slot text_eq
too_late = refl

pub came_back :
    undelete 4 72 (removed 2 first ∷ removed 3 second ∷ [])
    ≡ ok (true, removed 2 first ∷ revived 4 second ∷ [])
unfolding undelete same_slot text_eq
came_back = refl

-- After a replacement that failed, the row of the new file stays, and hides the old one.
leftover :
    restore_replaced 3 71 72 (removed 2 first ∷ second ∷ [])
    ≡ ok (revived 3 first ∷ removed 3 second ∷ [])
unfolding restore_replaced same_slot text_eq
leftover = refl

hidden : undelete 6 71 (removed 5 first ∷ removed 3 second ∷ []) ≡ err superseded
unfolding undelete find_by_id_including_deleted same_slot text_eq
hidden = refl

file_names :
    (split_filename (codes "vol.1.pdf") ≡ some (codes "vol.1", codes "pdf"))
    × (split_filename (codes ".pdf") ≡ none)
    × (webdav_filename (codes "bolero") (codes "image/png") ≡ some (codes "bolero.png"))
    × (name_stem (codes "  bolero.final.pdf ") ≡ some (codes "bolero.final"))
    × (derived_key
          (codes "acme")
          (codes "bolero")
          (some (codes "flute"))
          (codes "part")
          (codes "pdf")
        ≡ codes "orgs/acme/arrangements/bolero/voices/flute/part.pdf")
unfolding split_filename webdav_filename format_and_ext_for_mime name_stem derived_key text_eq
file_names = (refl, refl, refl, refl, refl)
