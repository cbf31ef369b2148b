-- ===== src/Domain/PartAssignment/Examples.antt =====
-- Tests of lied/src/domain/part_assignment.rs on one piece with two voices.
use lied.Prelude.{◌≡◌, refl, true, false, none, some, [], ◌∷◌, ok, err}
use lied.Prelude.Int.{pos}
use lied.Prelude.Text.{codes}
use lied.Domain.PartAssignment.{
  PartAssignment, Programme, Table, assign, reassigned, replaced, new_part, unknown_reference,
  voice_not_in_arrangement, update_state, list_for_item,
}
use lied.Domain.PartAssignment.Assigned.{IsAssigned, assign-IsAssigned}
use lied.Domain.PartAssignment.Kept.{IsUnique}
use lied.Domain.PartAssignment.Reachable.{nothing, assigned, updated, Written-IsUnique}

abbrev programme : Programme
programme = record {
  items =
      record {
        id = 11;
        collection_id = 7;
        arrangement_id = 21;
        index = pos 1;
        created_at = 1;
        updated_at = 1;
        created_by = none;
        deleted_at = none;
      }
      ∷ [];
  voices =
      record { id = 41; arrangement_id = 21; slug = codes "voice-1"; deleted_at = none }
      ∷ record { id = 42; arrangement_id = 21; slug = codes "voice-2"; deleted_at = some 5 }
      ∷ record { id = 43; arrangement_id = 22; slug = codes "voice-3"; deleted_at = none }
      ∷ [];
  users = 91 ∷ 92 ∷ [];
}

abbrev told : PartAssignment
told = record (new_part 2 61 11 41 91 (some 91)) { notified_at = some 3; acknowledged_at = some 4 }

abbrev rows : Table
rows = new_part 2 60 12 41 92 none ∷ told ∷ []

refused :
    (assign programme 9 62 11 42 91 none rows ≡ err voice_not_in_arrangement)
    × (assign programme 9 62 11 43 91 none rows ≡ err voice_not_in_arrangement)
    × (assign programme 9 62 11 41 95 none rows ≡ err unknown_reference)
unfolding assign
refused = (refl, refl, refl)

handed_over :
    assign programme 9 62 11 41 92 none rows
    ≡ ok ((reassigned 9 92 told, false), replaced 9 11 41 92 rows)
unfolding assign
handed_over = refl

told_again : reassigned 9 91 told ≡ record told { updated_at = 9 }
told_again = refl

assign-IsAssigned_example :
    IsAssigned 11 41 92 rows ((reassigned 9 92 told, false), replaced 9 11 41 92 rows)
assign-IsAssigned_example = assign-IsAssigned programme 9 62 11 41 92 none rows handed_over

abbrev first_part : PartAssignment
first_part = new_part 2 61 11 41 91 (some 91)

assigned_first :
    assign programme 2 61 11 41 91 (some 91) [] ≡ ok ((first_part, true), first_part ∷ [])
unfolding assign
assigned_first = refl

assigned_again :
    assign programme 9 62 11 41 92 none (first_part ∷ [])
    ≡ ok ((reassigned 9 92 first_part, false), reassigned 9 92 first_part ∷ [])
unfolding assign
assigned_again = refl

Written-IsUnique_example :
    IsUnique (update_state 10 61 none (some 1700000000123456) (reassigned 9 92 first_part ∷ [])).1
Written-IsUnique_example = Written-IsUnique (
    updated 10 61 none (some 1700000000123456) (
      assigned programme 9 62 11 41 92 none (reassigned 9 92 first_part, false)
        (assigned programme 2 61 11 41 91 (some 91) (first_part, true) nothing assigned_first)
        assigned_again))

newest_first : list_for_item 11 1 0 rows ≡ (told ∷ [], 1)
unfolding list_for_item
newest_first = refl
