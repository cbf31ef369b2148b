-- ===== src/Domain/Membership/Owners.antt =====
-- lied/src/domain/membership.rs: an organization keeps an owner.
use lied.Prelude.{
  ℕ, ◌≡◌, refl, sym, ◌∙◌, subst, Bool, true, false, not, ◌&&◌, none, some, inl, inr, any, find,
  keep, All-imp, Bool-cases, Option-cases, if◌then◌else◌, ◌==◌, ◌↔◌, arith, ok, err,
}
use lied.Sql.Lookup.{
  HasUniqueKeys, only_of_find, any-keep-not, any_of_others, any_of_length, any_of_zero,
  any_of_found, any_of_find, length_of_any,
}
use lied.Domain.Membership.{
  Row, Table, last_owner, has_id, owns, role_of, into_membership, find_by_id, other_owner_count,
  delete, delete_check, delete_rows,
}
use lied.Domain.Membership.Roles.{is_owner, is_owner-eq}

abbrev pub HasUniqueIds : Table → Type 0
HasUniqueIds = HasUniqueKeys (λ r. r.id)

-- Somebody owns the organization.
abbrev pub HasOwner : ℕ → Table → Type 0
HasOwner o rows = any (owns o) rows ≡ true

abbrev pub other_owns : ℕ → ℕ → Row → Bool
other_owns o id r = owns o r && not (has_id id r)

module _ (o id : ℕ) (rows : Table) {t : Row} (unique : HasUniqueIds rows)
    (found : find (has_id id) rows ≡ some t) where
  -- When the found row is no owner of `o`, an owner of `o` is somebody else.
  pub others_of_member : owns o t ≡ false → HasOwner o rows → any (other_owns o id) rows ≡ true
  others_of_member e h =
      any_of_others (has_id id) (owns o) rows
        (All-imp (λ r. has_id id r ≡ true → r ≡ t) (λ r. has_id id r ≡ true → owns o r ≡ false)
          (λ r same k. subst (λ s. owns o s ≡ false) (sym (same k)) e) rows
          (only_of_find (λ r. r.id) id rows unique found))
        h

  -- When the found row is an owner, the guard has counted another one.
  pub others_of_owner :
      owns o t ≡ true
      → (is_owner (role_of t.role) && other_owner_count t.organization_id id rows == 0) ≡ false
      → any (other_owns o id) rows ≡ true
  unfolding other_owner_count
  others_of_owner e g =
      let same : t.organization_id ≡ o = ground arith in
      let role = is_owner-eq t.role in
      let counted : (other_owner_count t.organization_id id rows == 0) ≡ false =
        ground (arith, role) in
      any_of_length (other_owns o id) rows (rw same at counted)

  others_remain :
      (is_owner (role_of t.role) && other_owner_count t.organization_id id rows == 0) ≡ false
      → HasOwner o rows
      → any (other_owns o id) rows ≡ true
  others_remain g h = elim (Bool-cases (owns o t)) [
    | inl e ↦ others_of_owner e g
    | inr e ↦ others_of_member e h
  ]

-- The condition under which a member may not leave the role of an owner.
abbrev pub is_sole : ℕ → Row → Table → Bool
is_sole id t rows = is_owner (role_of t.role) && other_owner_count t.organization_id id rows == 0

abbrev pub without : ℕ → Table → Table
without id rows = keep (λ r. not (has_id id r)) rows

pub delete_of_none :
    (id : ℕ) (rows : Table) → find (has_id id) rows ≡ none → delete id rows ≡ ok (false, rows)
unfolding delete delete_check find_by_id
delete_of_none id rows e = rw (delete, delete_check, find_by_id, e) refl

module _ (id : ℕ) (rows : Table) {t : Row} (found : find (has_id id) rows ≡ some t) where
  pub delete_check_of_found :
      delete_check id rows ≡ (if is_sole id t rows then err last_owner else ok true)
  unfolding delete_check find_by_id into_membership
  delete_check_of_found = elim (Bool-cases (is_sole id t rows)) [
    | inl g ↦ rw (delete_check, find_by_id, found, g) refl
    | inr g ↦ rw (delete_check, find_by_id, found, g) refl
  ]

  pub delete_of_found :
      delete id rows ≡ (if is_sole id t rows then err last_owner else ok (true, without id rows))
  unfolding delete delete_rows
  delete_of_found =
      let present = any_of_find (has_id id) rows found in
      elim (Bool-cases (is_sole id t rows)) [
        | inl g ↦ rw (delete_check_of_found, g) refl
        | inr g ↦ rw (delete_check_of_found, g, present) refl
      ]

-- Deleting a membership never takes the last owner from an organization: in a table with unique
-- ids, when `delete` succeeds, every organization that had an owner has one afterwards.
pub delete-HasOwner :
    (o id : ℕ) (rows : Table) {removed : Bool} {rows' : Table}
    → HasUniqueIds rows
    → delete id rows ≡ ok (removed, rows')
    → HasOwner o rows
    → HasOwner o rows'
delete-HasOwner o id rows {removed} {rows'} unique done h =
    elim (Option-cases (find (has_id id) rows)) [
      | inl e ↦ let d = delete_of_none id rows e in subst (HasOwner o) (cc) h
      | inr (t, e) ↦
          let d = delete_of_found id rows e in
          elim (Bool-cases (is_sole id t rows)) [
            | inl g ↦ let d' = rw g at d in absurd (cc)
            | inr g ↦
                let d' = rw g at d in
                let left : HasOwner o (without id rows) =
                  any-keep-not (has_id id) (owns o) rows ∙ others_remain o id rows unique e g h in
                subst (HasOwner o) (cc) left
          ]
    ]

-- `delete` of a membership in a table with unique ids fails with `LastOwner` exactly when its
-- organization has an owner and would have none without this membership.
pub delete_refuses :
    (id : ℕ) (rows : Table) {t : Row}
    → HasUniqueIds rows
    → find (has_id id) rows ≡ some t
    → (delete id rows ≡ err last_owner)
      ↔ (HasOwner t.organization_id rows × (any (owns t.organization_id) (without id rows) ≡ false))
unfolding other_owner_count
delete_refuses id rows {t} unique found =
    let d = delete_of_found id rows found in
    let o = t.organization_id in
    let rest = any-keep-not (has_id id) (owns o) rows in
    let role = is_owner-eq t.role in
    (
      λ refused. elim (Bool-cases (is_sole id t rows)) [
        | inl g ↦
            let owned : owns o t ≡ true = ground (arith, role) in
            let none_else : any (other_owns o id) rows ≡ false =
              any_of_zero (other_owns o id) rows (ground arith) in
            (any_of_found (has_id id) (owns o) rows found owned, rest ∙ none_else)
        | inr g ↦ let d' = rw g at d in absurd (cc)
      ],
      λ (h, gone).
          let none_else : any (other_owns o id) rows ≡ false = sym rest ∙ gone in
          let count = length_of_any (other_owns o id) rows none_else in
          elim (Bool-cases (owns o t)) [
            | inl e ↦
                let g : is_sole id t rows ≡ true = rw count (ground (arith, role)) in rw g at d
            | inr e ↦ let left = others_of_member o id rows unique found e h in absurd (cc)
          ],
    )
