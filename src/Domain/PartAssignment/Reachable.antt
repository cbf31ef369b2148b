-- ===== src/Domain/PartAssignment/Reachable.antt =====
-- lied/src/domain/part_assignment.rs: what holds of the table after any writes.
use lied.Prelude.{ℕ, ◌≡◌, Option, none, [], Bool, ok}
use lied.Domain.PartAssignment.{PartAssignment, Table, Programme, assign, update_state, delete}
use lied.Domain.PartAssignment.Kept.{IsUnique, assign-IsUnique, changes-IsUnique}

-- The tables that the writes make of the empty one.
pub data Written : Table → Type 0 where
  nothing : Written []
  assigned :
      (programme : Programme) (now id item voice user : ℕ) (created_by : Option ℕ)
      (made : PartAssignment × Bool) {rows rows' : Table}
      → Written rows
      → assign programme now id item voice user created_by rows ≡ ok (made, rows')
      → Written rows'
  updated :
      (now id : ℕ) (notified_at acknowledged_at : Option ℕ) {rows : Table}
      → Written rows
      → Written (update_state now id notified_at acknowledged_at rows).1
  deleted : (id : ℕ) {rows : Table} → Written rows → Written (delete id rows).1

-- In every table that the writes make of the empty one, in any order and with any programme, no id
-- is twice and no voice of an item has two assignments.
pub Written-IsUnique : {rows : Table} → Written rows → IsUnique rows
Written-IsUnique nothing = tt
Written-IsUnique (assigned programme now id item voice user created_by made {rows} w e) =
    assign-IsUnique programme now id item voice user created_by rows (Written-IsUnique w) e
Written-IsUnique (updated now id notified_at acknowledged_at {rows} w) =
    (changes-IsUnique now id notified_at acknowledged_at rows (Written-IsUnique w)).0
Written-IsUnique (deleted id {rows} w) =
    (changes-IsUnique 0 id none none rows (Written-IsUnique w)).1
