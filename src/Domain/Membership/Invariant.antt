-- ===== src/Domain/Membership/Invariant.antt =====
-- lied/src/domain/membership.rs: what every write keeps of the table.
use lied.Prelude.{
  ℕ, ◌≡◌, subst, true, false, ◌&&◌, Option, some, List, [], ◌∷◌, inl, inr, all, contains, All,
  All-append, Pairs-snoc, Pairs, Bool-cases, Option-cases, Result-cases, arith, ok, Distinct,
  Within,
}
use lied.Sql.{violation, collides, insert}
use lied.Sql.Update.{collides_of_violation}
use lied.Domain.Membership.{
  Row, Membership, Table, MembershipFields, References, indexes, validate_fields,
  validate_instrument_ids, principal_ids_are_subset, create,
}
use lied.Domain.Membership.Roles.{Role, as_str, parse_role, parse_role-as_str}
use lied.Domain.Membership.Validation.{validate_instrument_ids_iff}

-- The `CHECK` of the column and the two rules on the arrays that the database cannot enforce.
pub record IsValid (instruments : List ℕ) (r : Row) : Type 0 where
  pub known_role : (role : Role) × (parse_role r.role ≡ some role)
  pub known_instruments : Within r.instrument_ids instruments
  pub subset : Within r.principal_instrument_ids r.instrument_ids

-- Neither the ids nor the members of an organization repeat.
abbrev pub IsUnique : Table → Type 0
IsUnique = Pairs (λ r s. collides indexes s r ≡ false)

pub record IsConsistent (instruments : List ℕ) (rows : Table) : Type 0 where
  pub unique : IsUnique rows
  pub valid : All (IsValid instruments) rows

Within-of_all : (xs ys : List ℕ) → all (λ x. contains x ys) xs ≡ true → Within xs ys
Within-of_all [] ys _ = tt
Within-of_all (x ∷ xs) ys h = (ground arith, Within-of_all xs ys (ground arith))

-- What the fields of a write must satisfy.
pub record IsAllowed (instruments : List ℕ) (fields : MembershipFields) : Type 0 where
  pub known : Within fields.instrument_ids instruments
  pub principal : Within fields.principal_instrument_ids fields.instrument_ids

pub IsAllowed-of_ok :
    (instruments : List ℕ) (fields : MembershipFields)
    → Distinct instruments
    → validate_fields instruments fields ≡ ok tt
    → IsAllowed instruments fields
unfolding validate_fields principal_ids_are_subset
IsAllowed-of_ok instruments fields d e =
    let known = validate_instrument_ids instruments fields.instrument_ids in
    let subset = all (λ id. contains id fields.instrument_ids) fields.principal_instrument_ids in
    elim (Bool-cases subset) [
      | inr f ↦ let e' = rw f at e in absurd (cc)
      | inl f ↦ elim (Bool-cases known) [
        | inr k ↦ let e' = rw (f, k) at e in absurd (cc)
        | inl k ↦ record {
          known = (validate_instrument_ids_iff instruments fields.instrument_ids d).0 k;
          principal = Within-of_all _ _ f;
        }
      ]
    ]

-- A new membership keeps the invariant: when the instruments have unique ids and `create` succeeds
-- on a consistent table, the new table is consistent.
pub create-IsConsistent :
    (refs : References) (instruments : List ℕ) (now id user_id organization_id : ℕ)
    (fields : MembershipFields) (created_by : Option ℕ) (rows : Table) {made : Membership}
    {rows' : Table}
    → Distinct instruments
    → IsConsistent instruments rows
    → create refs instruments now id user_id organization_id fields created_by rows
      ≡ ok (made, rows')
    → IsConsistent instruments rows'
unfolding create insert
create-IsConsistent refs instruments now id user_id organization_id fields created_by rows d h e =
    let row : Row = record {
      id = id;
      user_id = user_id;
      organization_id = organization_id;
      role = as_str fields.role;
      instrument_ids = fields.instrument_ids;
      is_principal = fields.is_principal;
      principal_instrument_ids = fields.principal_instrument_ids;
      created_at = now;
      updated_at = now;
      created_by = created_by;
    } in
    elim (Result-cases (validate_fields instruments fields)) [
      | inr (_, v) ↦ let e' = rw v at e in absurd (cc)
      | inl (_, v) ↦ elim (Option-cases (violation indexes row rows)) [
        | inr (_, w) ↦ let e' = rw (v, w) at e in absurd (cc)
        | inl w ↦
            elim (Bool-cases
              (contains user_id refs.users && contains organization_id refs.organizations)) [
                | inr g ↦ let e' = rw (v, w, g) at e in absurd (cc)
                | inl g ↦
                    let e' = rw (v, w, g) at e in
                    let allowed = IsAllowed-of_ok instruments fields d v in
                    subst (IsConsistent instruments) (cc) (record {
                      unique =
                          Pairs-snoc (λ r s. collides indexes s r ≡ false) rows row h.unique
                            (collides_of_violation indexes row rows w);
                      valid = All-append (IsValid instruments) rows (row ∷ []) h.valid (
                        record {
                          known_role = (fields.role, parse_role-as_str fields.role);
                          known_instruments = allowed.known;
                          subset = allowed.principal;
                        },
                        tt,
                      );
                    })
              ]
      ]
    ]
