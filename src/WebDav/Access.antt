-- ===== src/WebDav/Access.antt =====
-- lied/src/webdav/access.rs: what a user sees of an organization's tree. A join is a search of the
-- second table for each row of the first.
pub mod Arrangements
pub mod Phantoms
pub mod Staff
pub mod Narrowing
pub mod Items
pub mod Examples
use lied.Prelude.{
  ℕ, Bool, true, false, not, ◌&&◌, ◌||◌, Option, none, some, List, [], ◌∷◌, ◌++◌, any, find, keep,
  ◌==◌, leb, is_none, if◌then◌else◌,
}
use lied.Prelude.Int.{ℤ, ltb_ℤ, eq_ℤ}
use lied.Prelude.Text.{Text, text_eq}
use mathlib.Core.Option
use lied.Sql.{order_by}
use lied.Domain.CollectionItem.{CollectionItem}
use lied.Domain.PartAssignment.{PartAssignment}
use lied.Domain.Entities.{Organization, Collection, Arrangement, Voice}
use lied.Domain.Membership.{Row, role_of}
use lied.Domain.Membership.Roles.{Role, owner, archivist, conductor, musician}

pub data Visibility : Type 0 where
  staff restricted : Visibility

unfoldable pub is_staff_view : Visibility → Bool
is_staff_view staff = true
is_staff_view restricted = false

unfoldable pub visibility_for : Option Role → Visibility
visibility_for (some owner) = staff
visibility_for (some archivist) = staff
visibility_for (some conductor) = staff
visibility_for (some musician) = restricted
visibility_for none = restricted

abbrev role_in : Option Row → Option Role
role_in none = none
role_in (some r) = some (role_of r.role)

unfoldable pub role_in_org : ℕ → ℕ → List Row → Option Role
role_in_org org_id user_id rows =
    role_in (find (λ r. r.organization_id == org_id && r.user_id == user_id) rows)

unfoldable pub find_org_id : Text → List Organization → Option ℕ
unfolding text_eq
find_org_id slug rows =
    Option.map (λ (o : Organization). o.id) (find (λ o. text_eq o.slug slug) rows)

-- The tables that the queries join.
pub record Tables : Type 0 where
  pub organizations : List Organization
  pub memberships : List Row
  pub collections : List Collection
  pub items : List CollectionItem
  pub arrangements : List Arrangement
  pub voices : List Voice
  pub assignments : List PartAssignment

unfoldable pub resolve_org_visibility : Tables → Text → ℕ → Option (ℕ × Visibility)
unfolding find_org_id role_in_org visibility_for
resolve_org_visibility db org_slug user_id =
    Option.map (λ org. (org, visibility_for (role_in_org org user_id db.memberships)))
      (find_org_id org_slug db.organizations)

-- `JOIN arrangement a ON a.id = ci.arrangement_id … AND a.deleted_at IS NULL`
abbrev pub is_arrangement_of : CollectionItem → Arrangement → Bool
is_arrangement_of item a = a.id == item.arrangement_id && is_none a.deleted_at

-- `JOIN voice v ON v.id = pa.voice_id … AND v.deleted_at IS NULL`
abbrev pub has_voice : Tables → PartAssignment → Bool
has_voice db pa = any (λ v. v.id == pa.voice_id && is_none v.deleted_at) db.voices

abbrev pub is_live_item : Tables → CollectionItem → Bool
is_live_item db item = is_none item.deleted_at && any (is_arrangement_of item) db.arrangements

unfoldable pub has_assignment_in_collection : Tables → ℕ → ℕ → Bool
has_assignment_in_collection db collection_id user_id =
    any
      (λ pa.
        any
          (λ item.
            item.id == pa.collection_item_id
            && (item.collection_id == collection_id
                && (is_live_item db item && (pa.user_id == user_id && has_voice db pa))))
          db.items)
      db.assignments

unfoldable pub has_assignment_on_item : Tables → ℕ → ℕ → Bool
has_assignment_on_item db collection_item_id user_id =
    any
      (λ pa.
        any
          (λ item.
            item.id == pa.collection_item_id
            && (pa.collection_item_id == collection_item_id
                && (is_live_item db item && (pa.user_id == user_id && has_voice db pa))))
          db.items)
      db.assignments

unfoldable pub has_assignment_on_item_voice : Tables → ℕ → ℕ → ℕ → Bool
has_assignment_on_item_voice db collection_item_id voice_id user_id =
    any
      (λ pa.
        pa.collection_item_id == collection_item_id
        && (pa.voice_id == voice_id && pa.user_id == user_id))
      db.assignments

pub record VisibleCollectionItem : Type 0 where
  pub id : ℕ
  pub index : ℤ
  pub arrangement_slug : Text

-- The rows of one item: one for each arrangement that the join finds.
unfoldable pub rows_of_item : CollectionItem → List Arrangement → List VisibleCollectionItem
rows_of_item item [] = []
rows_of_item item (a ∷ arrangements) =
    let rest = rows_of_item item arrangements in
    if is_arrangement_of item a
    then record { id = item.id; index = item.index; arrangement_slug = a.slug } ∷ rest
    else rest

-- The join of the items that the test selects.
unfoldable pub item_rows :
    (CollectionItem → Bool) → List Arrangement → List CollectionItem → List VisibleCollectionItem
unfolding rows_of_item
item_rows p arrangements [] = []
item_rows p arrangements (item ∷ items) =
    let rest = item_rows p arrangements items in
    if p item then rows_of_item item arrangements ++ rest else rest

-- `ORDER BY ci.index ASC, ci.id ASC`
abbrev pub shown_before : VisibleCollectionItem → VisibleCollectionItem → Bool
shown_before r s = ltb_ℤ r.index s.index || (eq_ℤ r.index s.index && leb r.id s.id)

-- `ci.collection_id = $1 AND ci.deleted_at IS NULL`
abbrev pub is_listed : ℕ → CollectionItem → Bool
is_listed collection_id item = item.collection_id == collection_id && is_none item.deleted_at

-- The joins with `part_assignment` and `voice`; as ids are unique, `DISTINCT` leaves one row.
abbrev pub is_played_by : Tables → ℕ → CollectionItem → Bool
is_played_by db user_id item =
    any (λ pa. pa.collection_item_id == item.id && (pa.user_id == user_id && has_voice db pa))
      db.assignments

unfoldable pub visible_collection_items : Tables → ℕ → ℕ → Visibility → List VisibleCollectionItem
unfolding item_rows order_by
visible_collection_items db collection_id user_id staff =
    order_by shown_before (item_rows (is_listed collection_id) db.arrangements db.items)
visible_collection_items db collection_id user_id restricted = order_by shown_before (
    item_rows (λ item. is_listed collection_id item && is_played_by db user_id item) db.arrangements
      db.items)
