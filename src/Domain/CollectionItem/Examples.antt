-- ===== src/Domain/CollectionItem/Examples.antt =====
-- Tests of lied/src/domain/collection_item.rs on a collection of three pieces and one removed one.
use mathlib.Core.List.Perm
use lied.Prelude.{
  ℕ, ◌≡◌, ◌↔◌, refl, true, false, not, ◌&&◌, none, some, [], ◌∷◌, ok, err, any, keep, All, ◌==◌,
  arith, length_perm,
}
use lied.Prelude.Int.{pos, negsuc}
use lied.Sql.{update, insert}
use lied.Domain.CollectionItem.{
  restore_position, CollectionItem, Table, is_live_in, is_valid_index, live_ids_in_order, reorder,
  remove, restore, invalid_reorder, duplicate_arrangement, create, duplicate_index, update_index,
  unknown_reference, undelete,
}
use lied.Domain.CollectionItem.Placement.{IsConsistent, IsInRange}
use lied.Domain.CollectionItem.Invariant.{HasOrder}
use lied.Domain.CollectionItem.Reorder.{others, reorder_lem, reorder_refuses}
use lied.Domain.CollectionItem.Remove.{bystanders, remove_lem}
use lied.Domain.CollectionItem.Restore.{restore_lem, restore_refuses}

abbrev piece : ℕ → ℕ → ℕ → CollectionItem
piece id arrangement index = record {
  id = id;
  collection_id = 7;
  arrangement_id = arrangement;
  index = pos index;
  created_at = 1;
  updated_at = 1;
  created_by = none;
  deleted_at = none;
}

abbrev programme : Table
programme =
    record (piece 14 24 2) { deleted_at = some 3 }
    ∷ piece 11 21 3
    ∷ piece 12 22 1
    ∷ piece 13 23 2
    ∷ []

programme-IsConsistent : IsConsistent programme
programme-IsConsistent = ground arith

programme-IsInRange : All (IsInRange 7) programme
programme-IsInRange = ground arith

running_order : live_ids_in_order 7 programme ≡ 12 ∷ 13 ∷ 11 ∷ []
unfolding live_ids_in_order
running_order = refl

valid_numbers :
    (is_valid_index (pos 1) ≡ true)
    × (is_valid_index (pos 999999) ≡ true)
    × (is_valid_index (pos 0) ≡ false)
    × (is_valid_index (negsuc 4) ≡ false)
    × (is_valid_index (pos 1000000) ≡ false)
unfolding is_valid_index
valid_numbers = (refl, refl, refl, refl, refl)

reorder_lem_example :
    (rows' : Table) × (reorder 9 7 (11 ∷ 12 ∷ 13 ∷ []) programme ≡ ok rows')
    × HasOrder 7 (11 ∷ 12 ∷ 13 ∷ []) rows'
    × (others 7 rows' ≡ others 7 programme)
reorder_lem_example =
    reorder_lem 9 7 (11 ∷ 12 ∷ 13 ∷ []) programme programme-IsConsistent programme-IsInRange
      (Perm.refl (11 ∷ 12 ∷ 13 ∷ []))

reorder_refuses_example : reorder 9 7 (11 ∷ 12 ∷ []) programme ≡ err invalid_reorder
reorder_refuses_example =
    reorder_refuses 9 7 (11 ∷ 12 ∷ []) programme programme-IsConsistent
      (λ p. let e = length_perm p in absurd (cc e))

remove_lem_example :
    (rows' : Table) × (remove 9 7 13 programme ≡ ok (true, rows'))
    × HasOrder 7 (keep (λ a. not (a == 13)) (live_ids_in_order 7 programme)) rows'
    × (bystanders 9 7 13 rows' ≡ bystanders 9 7 13 programme)
remove_lem_example = remove_lem 9 7 13 programme programme-IsConsistent programme-IsInRange refl

restore_lem_example :
    (rows' : Table) × (restore 9 7 14 programme ≡ ok (true, rows'))
    × HasOrder 7 (12 ∷ 14 ∷ 13 ∷ 11 ∷ []) rows'
    × (bystanders 9 7 14 rows' ≡ bystanders 9 7 14 programme)
unfolding live_ids_in_order restore_position
restore_lem_example =
    restore_lem 9 7 14 programme programme-IsConsistent programme-IsInRange (omega arith) refl refl

-- The arrangement of the removed piece is in the collection again.
abbrev readded : Table
readded = record (piece 14 23 2) { deleted_at = some 3 } ∷ piece 12 22 1 ∷ piece 13 23 2 ∷ []

restore_refuses_example :
    (restore 9 7 14 readded ≡ err duplicate_arrangement)
    ↔ (any (λ r. is_live_in 7 r && r.arrangement_id == 23) readded ≡ true)
restore_refuses_example =
    restore_refuses 9 7 14 readded (ground arith) (ground arith) (omega arith) refl

taken_number : update_index 9 12 (pos 2) programme ≡ err duplicate_index
unfolding update_index update
taken_number = refl

no_arrangement :
    create
      (record { collections = 7 ∷ []; arrangements = []; users = [] })
      9
      15
      7
      25
      (pos 4)
      none
      programme
    ≡ err unknown_reference
unfolding create insert
no_arrangement = refl

-- The plain undelete can meet the number of another piece.
undelete_clash : undelete 9 14 programme ≡ err duplicate_index
unfolding undelete
undelete_clash = refl
