-- ===== src/Domain/Membership/Reachable.antt =====
-- lied/src/domain/membership.rs: what holds of a table after any writes.
use lied.Prelude.{
  ℕ, ◌≡◌, subst, Bool, true, ◌&&◌, Option, List, [], ◌∷◌, ◌++◌, inl, inr, ok, any, contains,
  Distinct, Pairs-weaken, Bool-cases, Result-cases, Option-cases, arith,
}
use lied.Sql.{violation, insert}
use lied.Domain.Membership.Roles.{as_str}
use lied.Domain.Membership.{
  Row, Membership, MembershipFields, Table, References, indexes, validate_fields, owns, create,
  update, delete,
}
use lied.Domain.Membership.Owners.{HasOwner, HasUniqueIds, delete-HasOwner}
use lied.Domain.Membership.Changes.{update-HasOwner}
use lied.Domain.Membership.Invariant.{IsConsistent, IsUnique, create-IsConsistent}
use lied.Domain.Membership.Kept.{update-IsConsistent, delete-IsConsistent}

-- A new row takes no owner away.
any_more : (q : Row → Bool) (rows more : Table) → any q rows ≡ true → any q (rows ++ more) ≡ true
any_more q [] more h = absurd (cc)
any_more q (r ∷ rows) more h = elim (Bool-cases (q r)) [
  | inl e ↦ ground arith
  | inr e ↦ let n = any_more q rows more (rw e at h) in ground arith
]

create-HasOwner :
    (o : ℕ) (refs : References) (instruments : List ℕ) (now id user_id organization_id : ℕ)
    (fields : MembershipFields) (created_by : Option ℕ) (rows : Table) {made : Membership}
    {rows' : Table}
    → create refs instruments now id user_id organization_id fields created_by rows
      ≡ ok (made, rows')
    → HasOwner o rows
    → HasOwner o rows'
unfolding create insert
create-HasOwner o refs instruments now id user_id organization_id fields created_by rows {made}
      {rows'} e h =
    let row : Row = record {
      id = id;
      user_id = user_id;
      organization_id = organization_id;
      role = as_str fields.role;
      instrument_ids = fields.instrument_ids;
      is_principal = fields.is_principal;
      principal_instrument_ids = fields.principal_instrument_ids;
      created_at = now;
      updated_at = now;
      created_by = created_by;
    } in
    elim (Result-cases (validate_fields instruments fields)) [
      | inr (_, v) ↦ let e' = rw v at e in absurd (cc)
      | inl (_, v) ↦ elim (Option-cases (violation indexes row rows)) [
        | inr (_, w) ↦ let e' = rw (v, w) at e in absurd (cc)
        | inl w ↦
            elim (Bool-cases
              (contains user_id refs.users && contains organization_id refs.organizations)) [
                | inr g ↦ let e' = rw (v, w, g) at e in absurd (cc)
                | inl g ↦
                    let e' = rw (v, w, g) at e in
                    let same : rows ++ row ∷ [] ≡ rows' = cc in
                    subst (HasOwner o) same (any_more (owns o) rows (row ∷ []) h)
              ]
      ]
    ]

-- One committed write, with the instruments that are live.
pub data Step (instruments : List ℕ) : Table → Table → Type 0 where
  create_step :
      (refs : References) (now id user_id organization_id : ℕ) (fields : MembershipFields)
      (created_by : Option ℕ) (made : Membership) {rows rows' : Table}
      → create refs instruments now id user_id organization_id fields created_by rows
        ≡ ok (made, rows')
      → Step instruments rows rows'
  update_step :
      (now id : ℕ) (fields : MembershipFields) (found : Option Membership) {rows rows' : Table}
      → update instruments now id fields rows ≡ ok (found, rows')
      → Step instruments rows rows'
  delete_step :
      (id : ℕ) (removed : Bool) {rows rows' : Table}
      → delete id rows ≡ ok (removed, rows')
      → Step instruments rows rows'

pub data Reach (instruments : List ℕ) (start : Table) : Table → Type 0 where
  here : Reach instruments start start
  next :
      {rows rows' : Table}
      → Reach instruments start rows
      → Step instruments rows rows'
      → Reach instruments start rows'

module _ (instruments : List ℕ) (distinct : Distinct instruments) (o : ℕ) where
  abbrev Holds : Table → Type 0
  Holds rows = IsConsistent instruments rows × HasOwner o rows

  unique_ids : (rows : Table) → IsUnique rows → HasUniqueIds rows
  unique_ids rows h = Pairs-weaken _ _ (λ r s k. λ e. absurd (ground arith)) rows h

  Step-Holds : {rows rows' : Table} → Step instruments rows rows' → Holds rows → Holds rows'
  Step-Holds {rows} (create_step refs now id user_id org fields created_by made e) (c, h) = (
    create-IsConsistent refs instruments now id user_id org fields created_by rows distinct c e,
    create-HasOwner o refs instruments now id user_id org fields created_by rows e h,
  )
  Step-Holds {rows} (update_step now id fields found e) (c, h) = (
    update-IsConsistent instruments now id fields rows distinct c e,
    update-HasOwner o instruments now id fields rows (unique_ids rows c.unique) e h,
  )
  Step-Holds {rows} (delete_step id removed e) (c, h) = (
    delete-IsConsistent instruments id rows c e,
    delete-HasOwner o id rows (unique_ids rows c.unique) e h,
  )

-- When the live instruments have unique ids, a consistent table is consistent after any successful
-- writes, one after the other, and an organization that had an owner still has one. Consistent
-- means that ids are unique, no user is twice in an organization, every role can be parsed, the
-- instruments of a member are live, and the principal ones are among them.
pub Reach-IsConsistent :
    (instruments : List ℕ) (o : ℕ) (start : Table) {rows : Table}
    → Distinct instruments
    → IsConsistent instruments start
    → HasOwner o start
    → Reach instruments start rows
    → IsConsistent instruments rows × HasOwner o rows
Reach-IsConsistent instruments o start distinct c h here = (c, h)
Reach-IsConsistent instruments o start distinct c h (next r s) =
    Step-Holds instruments distinct o s (Reach-IsConsistent instruments o start distinct c h r)
