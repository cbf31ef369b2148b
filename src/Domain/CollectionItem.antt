-- ===== src/Domain/CollectionItem.antt =====
-- lied/src/domain/collection_item.rs: the pieces of a collection at their index numbers.
-- A table is the list of its rows; an operation returns the table that its transaction commits, and
-- an error stands for the rollback. `now` is the transaction's clock.
pub mod Placement
pub mod Renumber
pub mod Order
pub mod Invariant
pub mod Reorder
pub mod Remove
pub mod Revive
pub mod Lookup
pub mod Restore
mod Examples
use lied.Prelude.{
  ℕ, zero, suc, ◌+◌, ◌-◌, ◌*◌, Bool, true, false, not, ◌&&◌, ◌||◌, Option, none, some, List, [],
  ◌∷◌, map, min, max, Result, ok, err, ◌>>=◌, ◌>>◌, guard, ◌==◌, leb, ltb, any, all, find, keep,
  length, contains, is_none, is_some, if◌then◌else◌,
}
use lied.Prelude.Int.{ℤ, pos, negsuc, pos_part, neg_part, eq_ℤ, ltb_ℤ, leb_ℤ, add_ℕ, i32_max}
use lied.Sql.{Unique, update, insert, order_by}

pub record CollectionItem : Type 0 where
  pub id : ℕ
  pub collection_id : ℕ
  pub arrangement_id : ℕ
  pub index : ℤ
  pub created_at : ℕ
  pub updated_at : ℕ
  pub created_by : Option ℕ
  pub deleted_at : Option ℕ

pub data CollectionItemError : Type 0 where
  database duplicate_index unknown_reference invalid_reorder duplicate_arrangement :
      CollectionItemError

abbrev pub Table : Type 0
Table = List CollectionItem

abbrev pub max_index : ℕ
max_index = 999999

abbrev pub index_park_offset : ℕ
index_park_offset = 1000000

unfoldable pub is_valid_index : ℤ → Bool
is_valid_index index = leb_ℤ (pos 1) index && leb_ℤ index (pos max_index)

abbrev pub is_live : CollectionItem → Bool
is_live r = is_none r.deleted_at

-- `collection_id = $1 AND deleted_at IS NULL`
abbrev pub is_live_in : ℕ → CollectionItem → Bool
is_live_in c r = r.collection_id == c && is_live r

abbrev same_id : CollectionItem → CollectionItem → Bool
same_id r s = r.id == s.id

abbrev same_index : CollectionItem → CollectionItem → Bool
same_index r s =
    is_live r && (is_live s && (r.collection_id == s.collection_id && eq_ℤ r.index s.index))

abbrev same_arrangement : CollectionItem → CollectionItem → Bool
same_arrangement r s =
    is_live r
    && (is_live s && (r.collection_id == s.collection_id && r.arrangement_id == s.arrangement_id))

-- The primary key and the two partial unique indexes, each with what `map_write_error` makes of it.
abbrev pub indexes : List (Unique CollectionItem CollectionItemError)
indexes =
    record { meets = same_id; error = database }
    ∷ record { meets = same_index; error = duplicate_index }
    ∷ record { meets = same_arrangement; error = duplicate_arrangement }
    ∷ []

-- An error that `?` converts without `map_write_error`.
abbrev pub plain : {A : Type 0} → Result CollectionItemError A → Result CollectionItemError A
plain (ok a) = ok a
plain (err e) = err database

-- The rows that the foreign keys of an item may name.
pub record References : Type 0 where
  pub collections : List ℕ
  pub arrangements : List ℕ
  pub users : List ℕ

abbrev pub has_references : References → CollectionItem → Bool
has_references refs r =
    contains r.collection_id refs.collections
    && (contains r.arrangement_id refs.arrangements
        && elim r.created_by [ none ↦ true | some user ↦ contains user refs.users ])

unfoldable pub create :
    References
    → ℕ
    → ℕ
    → ℕ
    → ℕ
    → ℤ
    → Option ℕ
    → Table
    → Result CollectionItemError (CollectionItem × Table)
create refs now id collection_id arrangement_id index created_by rows =
    let row : CollectionItem = record {
      id = id;
      collection_id = collection_id;
      arrangement_id = arrangement_id;
      index = index;
      created_at = now;
      updated_at = now;
      created_by = created_by;
      deleted_at = none;
    } in
    do
      rows' ← insert indexes row rows
      guard (has_references refs row) unknown_reference
      ok (row, rows')

unfoldable pub find_by_id : ℕ → Table → Option CollectionItem
find_by_id id rows = find (λ r. r.id == id && is_live r) rows

unfoldable pub find_by_id_including_deleted : ℕ → Table → Option CollectionItem
find_by_id_including_deleted id rows = find (λ r. r.id == id) rows

-- `ORDER BY index ASC, id ASC`
abbrev pub before : CollectionItem → CollectionItem → Bool
before r s = ltb_ℤ r.index s.index || (eq_ℤ r.index s.index && leb r.id s.id)

unfoldable pub live_ids_in_order : ℕ → Table → List ℕ
unfolding order_by
live_ids_in_order c rows = map (λ r. r.id) (order_by before (keep (is_live_in c) rows))

abbrev with_index : ℤ → ℕ → CollectionItem → CollectionItem
with_index index now r = record r { index = index; updated_at = now }

-- `None` if no live item has the id.
unfoldable pub update_index :
    ℕ → ℕ → ℤ → Table → Result CollectionItemError (Option CollectionItem × Table)
unfolding find_by_id
update_index now id new_index rows = do
  rows' ← update indexes (λ r. r.id == id && is_live r) (λ r. ok (with_index new_index now r)) rows
  ok (find_by_id id rows', rows')

-- `index + $2` in a Postgres `integer`
abbrev pub shifted : CollectionItem → Result CollectionItemError CollectionItem
shifted r =
    let index = add_ℕ r.index index_park_offset in
    if ltb_ℤ (pos i32_max) index then err database else ok (record r { index = index })

unfoldable pub park : ℕ → Table → Result CollectionItemError Table
unfolding update
park c rows = plain (update indexes (is_live_in c) shifted rows)

-- The loop from its `position` on.
unfoldable pub assign_from : ℕ → ℕ → ℕ → List ℕ → Table → Result CollectionItemError Table
unfolding update
assign_from now c position [] rows = ok rows
assign_from now c position (id ∷ ids) rows = do
  rows' ←
      update indexes (λ r. r.id == id && is_live_in c r)
        (λ r. ok (with_index (pos (suc position)) now r)) rows
  assign_from now c (suc position) ids rows'

unfoldable pub assign_order : ℕ → ℕ → List ℕ → Table → Result CollectionItemError Table
unfolding assign_from
assign_order now c ids rows = assign_from now c 0 ids rows

unfoldable pub renumber : ℕ → ℕ → List ℕ → Table → Result CollectionItemError Table
unfolding park assign_order
renumber now c ids rows = do parked ← park c rows; assign_order now c ids parked

-- `ordered_ids.len() == live.len() && ordered_set == live_set`
unfoldable pub is_reordering : List ℕ → List ℕ → Bool
is_reordering ordered live =
    length ordered == length live
    && (all (λ id. contains id live) ordered && all (λ id. contains id ordered) live)

unfoldable pub reorder : ℕ → ℕ → List ℕ → Table → Result CollectionItemError Table
unfolding is_reordering park assign_order
reorder now c ordered rows = do
  let live = map (λ r. r.id) (keep (is_live_in c) rows)
  guard (is_reordering ordered live) invalid_reorder
  parked ← park c rows
  assign_order now c ordered parked

abbrev pub deleted : ℕ → CollectionItem → CollectionItem
deleted now r = record r { deleted_at = some now; updated_at = now }

-- The flag says whether a live item was removed.
unfoldable pub remove : ℕ → ℕ → ℕ → Table → Result CollectionItemError (Bool × Table)
unfolding update live_ids_in_order renumber
remove now c id rows =
    let target = λ (r : CollectionItem). r.id == id && is_live_in c r in
    if any target rows
    then (do
      removed ← plain (update indexes target (λ r. ok (deleted now r)) rows)
      renumbered ← renumber now c (live_ids_in_order c removed) removed
      ok (true, renumbered))
    else ok (false, rows)

-- `Vec::insert` at a position that is at most the length.
abbrev pub insert_at {ℓ} : {A : Type ℓ} → ℕ → A → List A → List A
insert_at zero a xs = a ∷ xs
insert_at (suc n) a [] = a ∷ []
insert_at (suc n) a (x ∷ xs) = x ∷ insert_at n a xs

-- Its old number, clamped to the end of a collection that has since shrunk.
unfoldable pub restore_position : ℤ → ℕ → ℕ
restore_position index count = min (max (pos_part index) 1 - 1) count

abbrev pub revived : ℕ → CollectionItem → CollectionItem
revived now r = record r {
  deleted_at = none;
  index = pos (2 * index_park_offset);
  updated_at = now;
}

-- The part of `restore` below the look-up of its target.
unfoldable pub restore_target :
    ℕ → ℕ → CollectionItem → Table → Result CollectionItemError (Bool × Table)
unfolding update live_ids_in_order park assign_order restore_position
restore_target now c target rows = do
  let clash = any (λ r. is_live_in c r && r.arrangement_id == target.arrangement_id) rows
  guard (not clash) duplicate_arrangement
  let live = live_ids_in_order c rows
  parked ← park c rows
  back ← update indexes (λ r. r.id == target.id) (λ r. ok (revived now r)) parked
  let order = insert_at (restore_position target.index (length live)) target.id live
  renumbered ← assign_order now c order back
  ok (true, renumbered)

unfoldable pub restore : ℕ → ℕ → ℕ → Table → Result CollectionItemError (Bool × Table)
unfolding restore_target
restore now c id rows =
    elim (find (λ r. r.id == id && (r.collection_id == c && is_some r.deleted_at)) rows) [
      | none ↦ ok (false, rows)
      | some target ↦ restore_target now c target rows
    ]

-- The flag says whether a row was touched. Hiding a row can meet no unique index.
unfoldable pub soft_delete : ℕ → ℕ → Table → Bool × Table
soft_delete now id rows =
    let target = λ (r : CollectionItem). r.id == id && is_live r in
    (any target rows, map (λ r. if target r then deleted now r else r) rows)

unfoldable pub undelete : ℕ → ℕ → Table → Result CollectionItemError (Bool × Table)
unfolding update
undelete now id rows =
    let target = λ (r : CollectionItem). r.id == id && is_some r.deleted_at in
    do
      rows' ←
          update indexes target (λ r. ok (record r { deleted_at = none; updated_at = now })) rows
      ok (any target rows, rows')
