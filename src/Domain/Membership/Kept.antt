-- ===== src/Domain/Membership/Kept.antt =====
-- `update` and `delete` of lied/src/domain/membership.rs keep the invariant of the table.
use lied.Prelude.{
  ℕ, ◌≡◌, subst, Bool, false, not, Option, List, map, inl, inr, find, All-imp, All-keep, All-map,
  Pairs-map, Pairs-keep, Pairs-weaken, Bool-cases, Option-cases, Result-cases, if◌then◌else◌, ok,
  Distinct,
}
use lied.Sql.{collides}
use lied.Domain.Membership.{
  Row, Membership, Table, MembershipFields, indexes, has_id, with_fields, update, validate_fields,
  delete,
}
use lied.Domain.Membership.Roles.{parse_role-as_str}
use lied.Domain.Membership.Owners.{is_sole, without, delete_of_none, delete_of_found}
use lied.Domain.Membership.Changes.{is_leaving, update_of_err, update_of_none, update_of_found}
use lied.Domain.Membership.Invariant.{IsValid, IsConsistent, IsAllowed, IsAllowed-of_ok}

module _ (instruments : List ℕ) (now id : ℕ) (fields : MembershipFields)
    (allowed : IsAllowed instruments fields) where
  abbrev write : Row → Row
  write r = if has_id id r then with_fields now fields r else r

  write-IsValid : (r : Row) → IsValid instruments r → IsValid instruments (write r)
  write-IsValid r h = elim (Bool-cases (has_id id r)) [
    | inl e ↦ rw e (record {
      known_role = (fields.role, parse_role-as_str fields.role);
      known_instruments = allowed.known;
      subset = allowed.principal;
    })
    | inr e ↦ rw e h
  ]

  write-collides :
      (r s : Row) → collides indexes s r ≡ false → collides indexes (write s) (write r) ≡ false
  write-collides r s h = elim (Bool-cases (has_id id r)) [
    | inl e ↦ elim (Bool-cases (has_id id s)) [ inl k ↦ rw (e, k) h | inr k ↦ rw (e, k) h ]
    | inr e ↦ elim (Bool-cases (has_id id s)) [ inl k ↦ rw (e, k) h | inr k ↦ rw (e, k) h ]
  ]

  written-IsConsistent :
      (rows : Table) → IsConsistent instruments rows → IsConsistent instruments (map write rows)
  written-IsConsistent rows h = record {
    unique = Pairs-map _ write rows (Pairs-weaken _ _ write-collides rows h.unique);
    valid = All-map _ write rows (All-imp _ _ write-IsValid rows h.valid);
  }

-- Changing a membership keeps the invariant: when the instruments have unique ids and `update`
-- succeeds on a consistent table, the new table is consistent.
pub update-IsConsistent :
    (instruments : List ℕ) (now id : ℕ) (fields : MembershipFields) (rows : Table)
    {found : Option Membership} {rows' : Table}
    → Distinct instruments
    → IsConsistent instruments rows
    → update instruments now id fields rows ≡ ok (found, rows')
    → IsConsistent instruments rows'
update-IsConsistent instruments now id fields rows distinct h done =
    elim (Result-cases (validate_fields instruments fields)) [
      | inr (_, v) ↦ let d = update_of_err instruments now id fields rows v in absurd (cc)
      | inl (_, v) ↦ elim (Option-cases (find (has_id id) rows)) [
        | inl e ↦
            let d = update_of_none instruments now id fields rows v e in
            subst (IsConsistent instruments) (cc) h
        | inr (t, e) ↦
            let d = update_of_found instruments now id fields rows v e in
            let allowed = IsAllowed-of_ok instruments fields distinct v in
            elim (Bool-cases (is_leaving instruments now id fields rows t)) [
              | inl g ↦ let d' = rw g at d in absurd (cc)
              | inr g ↦
                  let d' = rw g at d in
                  subst (IsConsistent instruments) (cc)
                    (written-IsConsistent instruments now id fields allowed rows h)
            ]
      ]
    ]

without-IsConsistent :
    (instruments : List ℕ) (id : ℕ) (rows : Table)
    → IsConsistent instruments rows
    → IsConsistent instruments (without id rows)
without-IsConsistent instruments id rows h = record {
  unique = Pairs-keep (λ r. not (has_id id r)) _ _ (λ _ _ _ _ k. k) rows h.unique;
  valid = All-keep (λ r. not (has_id id r)) _ _ (λ _ _ k. k) rows h.valid;
}

-- Deleting a membership keeps the invariant: when `delete` succeeds on a consistent table, the new
-- table is consistent.
pub delete-IsConsistent :
    (instruments : List ℕ) (id : ℕ) (rows : Table) {removed : Bool} {rows' : Table}
    → IsConsistent instruments rows
    → delete id rows ≡ ok (removed, rows')
    → IsConsistent instruments rows'
delete-IsConsistent instruments id rows h done = elim (Option-cases (find (has_id id) rows)) [
  | inl e ↦ let d = delete_of_none id rows e in subst (IsConsistent instruments) (cc) h
  | inr (t, e) ↦
      let d = delete_of_found id rows e in
      elim (Bool-cases (is_sole id t rows)) [
        | inl g ↦ let d' = rw g at d in absurd (cc)
        | inr g ↦
            let d' = rw g at d in
            subst (IsConsistent instruments) (cc) (without-IsConsistent instruments id rows h)
      ]
]
