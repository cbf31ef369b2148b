-- ===== src/Domain/Coverage/Examples.antt =====
-- Tests of lied/src/domain/coverage.rs on a programme of two pieces.
use lied.Prelude.{
  ℕ, ◌≡◌, ◌↔◌, refl, false, true, Option, none, some, List, [], ◌∷◌, map, All, arith,
}
use lied.Prelude.Int.{pos}
use lied.Prelude.Text.{codes}
use lied.Domain.Coverage.{ItemRow, VoiceCells, for_collection, for_org, is_fully_assigned}
use lied.Domain.Coverage.Tally.{IsCovered, is_fully_assigned_iff}
use lied.Domain.Coverage.Org.{org_rows, report_of, for_org-for_collection}

abbrev part : ℕ → Option ℕ → Option ℕ → VoiceCells
part voice assignment acknowledged = record {
  voice_id = some voice;
  voice_name = some (codes "flute");
  instrument_id = some 31;
  assignee_username = none;
  assignee_display_name = none;
  assignment_id = assignment;
  notified_at = none;
  acknowledged_at = acknowledged;
}

abbrev row : ℕ → ℕ → VoiceCells → ItemRow
row item index cells = record {
  item_id = item;
  item_index = pos index;
  arrangement_id = 20;
  arrangement_title = codes "Bolero";
  arrangement_slug = codes "bolero";
  arrangement_removed = false;
  cells = cells;
}

abbrev programme : List ItemRow
programme =
    row 1 1 (part 41 (some 51) (some 9))
    ∷ row 1 1 (part 42 none none)
    ∷ row 2 2 (part 41 (some 52) none)
    ∷ []

counted :
    ((for_collection 7 programme).required ≡ 3)
    × ((for_collection 7 programme).assigned ≡ 2)
    × ((for_collection 7 programme).rehearsed ≡ 1)
    × (is_fully_assigned (for_collection 7 programme) ≡ false)
unfolding for_collection is_fully_assigned
counted = (refl, refl, refl, refl)

is_fully_assigned_iff_example :
    (is_fully_assigned (for_collection 7 programme) ≡ true)
    ↔ All IsCovered (for_collection 7 programme).items
is_fully_assigned_iff_example = is_fully_assigned_iff 7 programme

abbrev blocks : List (ℕ × List ItemRow)
blocks = (7, programme) ∷ (8, []) ∷ (9, row 3 1 (part 43 none none) ∷ []) ∷ []

for_org-for_collection_example : for_org (org_rows blocks) ≡ map report_of blocks
for_org-for_collection_example = for_org-for_collection blocks (ground arith)
