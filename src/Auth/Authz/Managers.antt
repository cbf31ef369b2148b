-- ===== src/Auth/Authz/Managers.antt =====
-- An organization with an owner can be managed: lied/src/auth/authz.rs over
-- lied/src/domain/membership.rs.
use lied.Prelude.{
  ℕ, ◌≡◌, refl, ◌∙◌, Bool, true, false, ◌&&◌, Option, none, some, List, [], ◌∷◌, inl, inr, find,
  All-find, Pairs-weaken, Bool-cases, ◌==◌, arith, ok,
}
use lied.Sql.{collides}
use lied.Sql.Lookup.{holds_of_find}
use lied.Domain.User.{User}
use lied.Domain.Membership.{
  Row, Membership, Table, indexes, owns, role_of, into_membership, find_by_user_and_org, delete,
}
use lied.Domain.Membership.Roles.{
  Role, owner, archivist, conductor, musician, is_owner, is_owner-eq,
}
use lied.Domain.Membership.Owners.{HasOwner, HasUniqueIds, delete-HasOwner}
use lied.Domain.Membership.Invariant.{IsUnique, IsConsistent}
use lied.Domain.Membership.Kept.{delete-IsConsistent}
use lied.Auth.Authz.{at_least, require_org_role}

abbrev is_member : ℕ → ℕ → Row → Bool
is_member user o r = r.user_id == user && r.organization_id == o

-- Some owner's row is the one that is found for its user.
found_owner :
    (o : ℕ) (rows : Table)
    → IsUnique rows
    → HasOwner o rows
    → (r : Row) × (find (is_member r.user_id o) rows ≡ some r) × (owns o r ≡ true)
found_owner o [] _ h = absurd (cc)
found_owner o (r ∷ rows) (d, ds) h = elim (Bool-cases (owns o r)) [
  | inl e ↦ let head : is_member r.user_id o r ≡ true = ground arith in (r, rw head refl, e)
  | inr e ↦
      let (s, f, k) = found_owner o rows ds (ground arith) in
      let in_o = holds_of_find (is_member s.user_id o) rows f in
      let apart = All-find (λ s. collides indexes s r ≡ false) (is_member s.user_id o) rows d f in
      let skip : is_member s.user_id o r ≡ false = ground arith in (s, rw skip f, k)
]

owner_of : (r : Role) → is_owner r ≡ true → r ≡ owner
owner_of owner e = refl
owner_of archivist e = absurd (cc)
owner_of conductor e = absurd (cc)
owner_of musician e = absurd (cc)

unique_ids : (rows : Table) → IsUnique rows → HasUniqueIds rows
unique_ids rows h = Pairs-weaken _ _ (λ r s k. ground arith) rows h

-- One of the users, who are given by their ids, passes every check for an owner of the
-- organization.
unfoldable pub IsManaged : (ℕ → User) → ℕ → Table → Type 0
IsManaged user_of o rows =
    (u : ℕ) × (found : Option Membership) × (require_org_role (user_of u) o owner rows ≡ ok found)

module _ (user_of : ℕ → User) (ids : (u : ℕ) → (user_of u).id ≡ u) where
  IsManaged-of_owner :
      (o : ℕ) (rows : Table) → IsUnique rows → HasOwner o rows → IsManaged user_of o rows
  unfolding IsManaged require_org_role at_least find_by_user_and_org into_membership
  IsManaged-of_owner o rows unique h =
      let (r, f, k) = found_owner o rows unique h in
      let user = user_of r.user_id in
      let role : role_of r.role ≡ owner =
        owner_of (role_of r.role) (is_owner-eq r.role ∙ ground arith) in
      elim (Bool-cases user.is_system_admin) [
        | inl a ↦ (r.user_id, none, rw a refl)
        | inr a ↦ (
          r.user_id,
          some (into_membership r),
          rw (a, find_by_user_and_org, ids r.user_id, f, role) refl,
        )
      ]

  -- However members are deleted, an organization does not become unmanageable: when `delete`
  -- succeeds on a consistent table, then for every organization that had an owner there is a user
  -- whom `require_org_role` with the minimum `Owner` lets through afterwards. The users are given
  -- by their ids.
  pub delete-IsManaged :
      (instruments : List ℕ) (o id : ℕ) (rows : Table) {removed : Bool} {rows' : Table}
      → IsConsistent instruments rows
      → delete id rows ≡ ok (removed, rows')
      → HasOwner o rows
      → IsManaged user_of o rows'
  delete-IsManaged instruments o id rows {removed} {rows'} h done owned =
      IsManaged-of_owner o rows' (delete-IsConsistent instruments id rows h done).unique
        (delete-HasOwner o id rows (unique_ids rows h.unique) done owned)
