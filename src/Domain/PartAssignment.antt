-- ===== src/Domain/PartAssignment.antt =====
-- lied/src/domain/part_assignment.rs: who plays which voice of which piece. `now` is the
-- transaction's clock; a time is the number of microseconds since the epoch.
pub mod Assigned
pub mod Kept
pub mod Reachable
mod Examples
use lied.Prelude.{
  ℕ, zero, suc, ◌*◌, ◌/◌, Bool, true, false, not, ◌&&◌, ◌||◌, Option, none, some, List, [], ◌∷◌,
  ◌++◌, map, Result, ok, err, ◌>>=◌, ◌>>◌, guard, ◌==◌, leb, ltb, any, find, keep, length, contains,
  is_none, if◌then◌else◌,
}
use lied.Prelude.Text.{Text}
use lied.Sql.{order_by}
use lied.Domain.CollectionItem.{CollectionItem}
use lied.Domain.Entities.{Voice}

pub record PartAssignment : Type 0 where
  pub id : ℕ
  pub collection_item_id : ℕ
  pub user_id : ℕ
  pub voice_id : ℕ
  pub notified_at : Option ℕ
  pub acknowledged_at : Option ℕ
  pub created_at : ℕ
  pub updated_at : ℕ
  pub created_by : Option ℕ

pub data PartAssignmentError : Type 0 where
  database voice_not_in_arrangement unknown_reference : PartAssignmentError

abbrev pub Table : Type 0
Table = List PartAssignment

-- The tables that the statement of `assign` joins, and the ids of the users.
pub record Programme : Type 0 where
  pub items : List CollectionItem
  pub voices : List Voice
  pub users : List ℕ

-- `ci.id = $2 AND ci.deleted_at IS NULL`
abbrev pub is_item : ℕ → CollectionItem → Bool
is_item id item = item.id == id && is_none item.deleted_at

-- `v.id = $3 AND v.arrangement_id = ci.arrangement_id AND v.deleted_at IS NULL`
abbrev pub is_voice_of : ℕ → CollectionItem → Voice → Bool
is_voice_of id item voice =
    voice.id == id && (voice.arrangement_id == item.arrangement_id && is_none voice.deleted_at)

-- Whether the join has a row.
unfoldable pub can_play : Programme → ℕ → ℕ → Bool
can_play programme item voice =
    any (λ i. is_item item i && any (is_voice_of voice i) programme.voices) programme.items

-- `collection_item_id = $1 AND voice_id = $2`
abbrev pub is_part : ℕ → ℕ → PartAssignment → Bool
is_part item voice row = row.collection_item_id == item && row.voice_id == voice

-- The `CASE` of a timestamp: it is cleared for a new assignee.
abbrev pub kept_for : ℕ → ℕ → Option ℕ → Option ℕ
kept_for old new time = if old == new then time else none

-- `DO UPDATE SET`
abbrev pub reassigned : ℕ → ℕ → PartAssignment → PartAssignment
reassigned now user row = record row {
  user_id = user;
  notified_at = kept_for row.user_id user row.notified_at;
  acknowledged_at = kept_for row.user_id user row.acknowledged_at;
  updated_at = now;
}

abbrev pub is_user : List ℕ → Option ℕ → Bool
is_user users none = true
is_user users (some id) = contains id users

abbrev pub new_part : ℕ → ℕ → ℕ → ℕ → ℕ → Option ℕ → PartAssignment
new_part now id item voice user created_by = record {
  id = id;
  collection_item_id = item;
  user_id = user;
  voice_id = voice;
  notified_at = none;
  acknowledged_at = none;
  created_at = now;
  updated_at = now;
  created_by = created_by;
}

abbrev pub replaced : ℕ → ℕ → ℕ → ℕ → Table → Table
replaced now item voice user rows =
    map (λ r. if is_part item voice r then reassigned now user r else r) rows

-- The statement behind its join: the conflict on the item and the voice decides.
unfoldable pub write_part :
    List ℕ
    → ℕ
    → PartAssignment
    → Table
    → Result PartAssignmentError ((PartAssignment × Bool) × Table)
write_part users now row rows = elim (find (is_part row.collection_item_id row.voice_id) rows) [
  | some old ↦ do
    guard (contains row.user_id users) unknown_reference
    ok (
      (reassigned now row.user_id old, false),
      replaced now row.collection_item_id row.voice_id row.user_id rows,
    )
  | none ↦ do
    guard (not (any (λ r. r.id == row.id) rows)) database
    guard (contains row.user_id users && is_user users row.created_by) unknown_reference
    ok ((row, true), rows ++ row ∷ [])
]

-- The flag says whether the row is a new one.
unfoldable pub assign :
    Programme
    → ℕ
    → ℕ
    → ℕ
    → ℕ
    → ℕ
    → Option ℕ
    → Table
    → Result PartAssignmentError ((PartAssignment × Bool) × Table)
unfolding can_play write_part
assign programme now id item voice user created_by rows = do
  guard (can_play programme item voice) voice_not_in_arrangement
  write_part programme.users now (new_part now id item voice user created_by) rows

unfoldable pub find_by_id : ℕ → Table → Option PartAssignment
find_by_id id rows = find (λ r. r.id == id) rows

unfoldable pub find_by_item_voice : ℕ → ℕ → Table → Option PartAssignment
find_by_item_voice item voice rows = find (is_part item voice) rows

-- `ORDER BY created_at DESC, id ASC`
abbrev pub newer : PartAssignment → PartAssignment → Bool
newer r s = ltb s.created_at r.created_at || (r.created_at == s.created_at && leb r.id s.id)

unfoldable pub page {ℓ} : {A : Type ℓ} → ℕ → ℕ → List A → List A
page limit offset [] = []
page zero zero (x ∷ xs) = []
page (suc limit) zero (x ∷ xs) = x ∷ page limit zero xs
page limit (suc offset) (x ∷ xs) = page limit offset xs

-- The page and the total.
unfoldable pub list_for_item : ℕ → ℕ → ℕ → Table → Table × ℕ
unfolding order_by page
list_for_item item limit offset rows =
    let mine = keep (λ r. r.collection_item_id == item) rows in
    (page limit offset (order_by newer mine), length mine)

-- `COALESCE(to_timestamp(ms / 1000.0), old)`: the time comes in whole milliseconds.
abbrev pub coalesce : Option ℕ → Option ℕ → Option ℕ
coalesce none old = old
coalesce (some time) old = some (time / 1000 * 1000)

abbrev pub with_state : ℕ → Option ℕ → Option ℕ → PartAssignment → PartAssignment
with_state now notified_at acknowledged_at r = record r {
  notified_at = coalesce notified_at r.notified_at;
  acknowledged_at = coalesce acknowledged_at r.acknowledged_at;
  updated_at = now;
}

unfoldable pub update_state : ℕ → ℕ → Option ℕ → Option ℕ → Table → Option PartAssignment × Table
unfolding find_by_id
update_state now id notified_at acknowledged_at rows =
    let rows' =
      map (λ r. if r.id == id then with_state now notified_at acknowledged_at r else r) rows in
    (find_by_id id rows', rows')

unfoldable pub delete : ℕ → Table → Bool × Table
delete id rows = (any (λ r. r.id == id) rows, keep (λ r. not (r.id == id)) rows)
