-- ===== src/Domain/Membership.antt =====
-- lied/src/domain/membership.rs: who plays what role in which organization. A table is the list of
-- its rows; `instruments` are the ids of the instrument table; `now` is the transaction's clock.
pub mod Roles
pub mod Owners
pub mod Changes
pub mod Validation
pub mod Invariant
pub mod Kept
pub mod Reachable
pub mod Races
pub mod Examples
use lied.Prelude.{
  ℕ, Bool, true, false, not, ◌&&◌, ◌||◌, Option, none, some, List, [], ◌∷◌, map, Result, ok, err,
  ◌>>=◌, ◌>>◌, guard, ◌==◌, leb, any, all, find, keep, length, contains, if◌then◌else◌,
}
use lied.Prelude.Text.{Text, codes, text_eq}
use lied.Sql.{Unique, insert, order_by}
use Roles.{Role, musician, as_str, parse_role, is_owner}

-- A row of the table; `Row` of the source leaves out `created_by`.
pub record Row : Type 0 where
  pub id : ℕ
  pub user_id : ℕ
  pub organization_id : ℕ
  pub role : Text
  pub instrument_ids : List ℕ
  pub is_principal : Bool
  pub principal_instrument_ids : List ℕ
  pub created_at : ℕ
  pub updated_at : ℕ
  pub created_by : Option ℕ

pub record Membership : Type 0 where
  pub id : ℕ
  pub user_id : ℕ
  pub organization_id : ℕ
  pub role : Role
  pub instrument_ids : List ℕ
  pub is_principal : Bool
  pub principal_instrument_ids : List ℕ
  pub created_at : ℕ
  pub updated_at : ℕ

pub data MembershipError : Type 0 where
  database duplicate unknown_instrument principal_not_subset last_owner : MembershipError

abbrev pub Table : Type 0
Table = List Row

-- A text that is no role counts as the least privileged role.
abbrev pub role_of : Text → Role
role_of s = elim (parse_role s) [ none ↦ musician | some r ↦ r ]

unfoldable pub into_membership : Row → Membership
into_membership r = record {
  id = r.id;
  user_id = r.user_id;
  organization_id = r.organization_id;
  role = role_of r.role;
  instrument_ids = r.instrument_ids;
  is_principal = r.is_principal;
  principal_instrument_ids = r.principal_instrument_ids;
  created_at = r.created_at;
  updated_at = r.updated_at;
}

abbrev pub membership_of : Option Row → Option Membership
membership_of none = none
membership_of (some r) = some (into_membership r)

abbrev pub same_id : Row → Row → Bool
same_id r s = r.id == s.id

abbrev pub same_member : Row → Row → Bool
same_member r s = r.user_id == s.user_id && r.organization_id == s.organization_id

-- The primary key and the unique index, each with what `map_insert_error` makes of it.
abbrev pub indexes : List (Unique Row MembershipError)
indexes =
    record { meets = same_id; error = database }
    ∷ record { meets = same_member; error = duplicate }
    ∷ []

unfoldable pub principal_ids_are_subset : List ℕ → List ℕ → Bool
principal_ids_are_subset instrument_ids principal_instrument_ids =
    all (λ id. contains id instrument_ids) principal_instrument_ids

-- `Vec::dedup`: of equal neighbours the first one stays.
unfoldable pub dedup : List ℕ → List ℕ
dedup [] = []
dedup (x ∷ []) = x ∷ []
dedup (x ∷ y ∷ xs) = let rest = dedup (y ∷ xs) in if x == y then rest else x ∷ rest

unfoldable pub validate_instrument_ids : List ℕ → List ℕ → Bool
unfolding order_by dedup
validate_instrument_ids instruments [] = true
validate_instrument_ids instruments (id ∷ ids) =
    length (keep (λ i. contains i (id ∷ ids)) instruments)
    == length (dedup (order_by leb (id ∷ ids)))

pub record MembershipFields : Type 0 where
  pub role : Role
  pub instrument_ids : List ℕ
  pub is_principal : Bool
  pub principal_instrument_ids : List ℕ

unfoldable pub validate_fields : List ℕ → MembershipFields → Result MembershipError (Unit {0})
unfolding principal_ids_are_subset validate_instrument_ids
validate_fields instruments fields = do
  guard (principal_ids_are_subset fields.instrument_ids fields.principal_instrument_ids)
      principal_not_subset
  guard (validate_instrument_ids instruments fields.instrument_ids) unknown_instrument

-- The rows that the foreign keys of a membership may name.
pub record References : Type 0 where
  pub users : List ℕ
  pub organizations : List ℕ

unfoldable pub create :
    References
    → List ℕ
    → ℕ
    → ℕ
    → ℕ
    → ℕ
    → MembershipFields
    → Option ℕ
    → Table
    → Result MembershipError (Membership × Table)
unfolding validate_fields into_membership as_str
create refs instruments now id user_id organization_id fields created_by rows =
    let row : Row = record {
      id = id;
      user_id = user_id;
      organization_id = organization_id;
      role = as_str fields.role;
      instrument_ids = fields.instrument_ids;
      is_principal = fields.is_principal;
      principal_instrument_ids = fields.principal_instrument_ids;
      created_at = now;
      updated_at = now;
      created_by = created_by;
    } in
    do
      validate_fields instruments fields
      rows' ← insert indexes row rows
      guard (contains user_id refs.users && contains organization_id refs.organizations) database
      ok (into_membership row, rows')

abbrev pub has_id : ℕ → Row → Bool
has_id id r = r.id == id

unfoldable pub find_by_id : ℕ → Table → Option Membership
unfolding into_membership
find_by_id id rows = membership_of (find (has_id id) rows)

unfoldable pub find_by_user_and_org : ℕ → ℕ → Table → Option Membership
unfolding into_membership
find_by_user_and_org user_id organization_id rows =
    membership_of (find (λ r. r.user_id == user_id && r.organization_id == organization_id) rows)

-- `organization_id = $1 AND role = 'owner'`
abbrev pub owns : ℕ → Row → Bool
owns organization_id r = r.organization_id == organization_id && text_eq r.role (codes "owner")

unfoldable pub other_owner_count : ℕ → ℕ → Table → ℕ
unfolding text_eq
other_owner_count organization_id exclude_membership_id rows =
    length (keep (λ r. owns organization_id r && not (has_id exclude_membership_id r)) rows)

abbrev pub with_fields : ℕ → MembershipFields → Row → Row
with_fields now fields r = record r {
  role = as_str fields.role;
  instrument_ids = fields.instrument_ids;
  is_principal = fields.is_principal;
  principal_instrument_ids = fields.principal_instrument_ids;
  updated_at = now;
}

-- The `UPDATE` sets no column of a unique index.
unfoldable pub update :
    List ℕ → ℕ → ℕ → MembershipFields → Table → Result MembershipError (Option Membership × Table)
unfolding validate_fields find_by_id other_owner_count as_str
update instruments now id fields rows = do
  validate_fields instruments fields
  elim (find_by_id id rows) [
    | none ↦ ok (none, rows)
    | some current ↦ do
      guard
          (not (
            is_owner current.role
            && (not (is_owner fields.role)
                && other_owner_count current.organization_id id rows == 0)))
          last_owner
      let rows' = map (λ r. if has_id id r then with_fields now fields r else r) rows
      ok (find_by_id id rows', rows')
  ]

unfoldable pub has_any_membership : ℕ → Table → Bool
has_any_membership user_id rows = any (λ r. r.user_id == user_id) rows

-- What `delete` does before its `DELETE`: whether there is a row to delete, or an error.
unfoldable pub delete_check : ℕ → Table → Result MembershipError Bool
unfolding find_by_id other_owner_count
delete_check id rows = elim (find_by_id id rows) [
  | none ↦ ok false
  | some current ↦ do
    guard (not (is_owner current.role && other_owner_count current.organization_id id rows == 0))
        last_owner
    ok true
]

-- `DELETE FROM membership WHERE id = $1`
unfoldable pub delete_rows : ℕ → Table → Bool × Table
delete_rows id rows = (any (has_id id) rows, keep (λ r. not (has_id id r)) rows)

unfoldable pub delete : ℕ → Table → Result MembershipError (Bool × Table)
unfolding delete_check delete_rows
delete id rows = do
  goes_on ← delete_check id rows
  if goes_on then ok (delete_rows id rows) else ok (false, rows)
