-- ===== src/Domain/Membership/Changes.antt =====
-- `update` of lied/src/domain/membership.rs: an organization keeps an owner.
use lied.Prelude.{
  ℕ, ◌≡◌, refl, subst, ap, Bool, true, false, not, ◌&&◌, Option, none, some, List, map, inl, inr,
  find, All-imp, Bool-cases, Option-cases, Result-cases, if◌then◌else◌, ◌==◌, arith, ok, err,
}
use lied.Sql.Lookup.{only_of_find, any-map_of_others, any-map_of_written, any_of_find}
use lied.Domain.Membership.{
  Row, Membership, Table, MembershipError, MembershipFields, last_owner, has_id, owns, role_of,
  into_membership, find_by_id, other_owner_count, with_fields, update, validate_fields,
}
use lied.Domain.Membership.Roles.{is_owner, as_str-eq}
use lied.Domain.Membership.Owners.{HasUniqueIds, HasOwner, others_of_owner, others_of_member}

module _ (instruments : List ℕ) (now id : ℕ) (fields : MembershipFields) (rows : Table) where
  abbrev pub written : Table
  written = map (λ r. if has_id id r then with_fields now fields r else r) rows

  -- The found member gives up the role of an owner, and there is no other owner.
  abbrev pub is_leaving : Row → Bool
  is_leaving t =
      is_owner (role_of t.role)
      && (not (is_owner fields.role) && other_owner_count t.organization_id id rows == 0)

  pub update_of_err :
      {e : MembershipError}
      → validate_fields instruments fields ≡ err e
      → update instruments now id fields rows ≡ err e
  unfolding update
  update_of_err e = rw (update, e) refl

  pub update_of_none :
      validate_fields instruments fields ≡ ok tt
      → find (has_id id) rows ≡ none
      → update instruments now id fields rows ≡ ok (none, rows)
  unfolding update find_by_id
  update_of_none v e = rw (update, v, find_by_id, e) refl

  pub update_of_found :
      {t : Row}
      → validate_fields instruments fields ≡ ok tt
      → find (has_id id) rows ≡ some t
      → update instruments now id fields rows
        ≡ (if is_leaving t then err last_owner else ok (find_by_id id written, written))
  unfolding update find_by_id into_membership other_owner_count
  update_of_found {t} v e = elim (Bool-cases (is_leaving t)) [
    | inl g ↦ rw (update, v, find_by_id, e, g) refl
    | inr g ↦ rw (update, v, find_by_id, e, g) refl
  ]

  module _ (o : ℕ) {t : Row} (unique : HasUniqueIds rows)
      (found : find (has_id id) rows ≡ some t) where
    -- An owner who stays one is written as an owner.
    written_owner : owns o t ≡ true → is_owner fields.role ≡ true → HasOwner o written
    written_owner e k =
        any-map_of_written (has_id id) (owns o) (with_fields now fields) rows
          (All-imp (λ r. has_id id r ≡ true → r ≡ t)
            (λ r. has_id id r ≡ true → owns o (with_fields now fields r) ≡ true)
            (λ r same h.
              let p = ap (λ (s : Row). s.organization_id) (same h) in
              ground (arith, as_str-eq fields.role))
            rows (only_of_find (λ r. r.id) id rows unique found))
          (any_of_find (has_id id) rows found)

    written-HasOwner : is_leaving t ≡ false → HasOwner o rows → HasOwner o written
    written-HasOwner g h = elim (Bool-cases (owns o t)) [
      | inr e ↦
          any-map_of_others (has_id id) (owns o) (with_fields now fields) rows
            (others_of_member o id rows unique found e h)
      | inl e ↦ elim (Bool-cases (is_owner fields.role)) [
        | inl k ↦ written_owner e k
        | inr k ↦
            any-map_of_others (has_id id) (owns o) (with_fields now fields) rows
              (others_of_owner o id rows unique found e (ground arith))
      ]
    ]

-- Changing a membership never takes the last owner from an organization: in a table with unique
-- ids, when `update` succeeds, every organization that had an owner has one afterwards.
pub update-HasOwner :
    (o : ℕ) (instruments : List ℕ) (now id : ℕ) (fields : MembershipFields) (rows : Table)
    {found : Option Membership} {rows' : Table}
    → HasUniqueIds rows
    → update instruments now id fields rows ≡ ok (found, rows')
    → HasOwner o rows
    → HasOwner o rows'
update-HasOwner o instruments now id fields rows {found} {rows'} unique done h =
    elim (Result-cases (validate_fields instruments fields)) [
      | inr (e, v) ↦ let d = update_of_err instruments now id fields rows v in absurd (cc)
      | inl (_, v) ↦ elim (Option-cases (find (has_id id) rows)) [
        | inl e ↦
            let d = update_of_none instruments now id fields rows v e in subst (HasOwner o) (cc) h
        | inr (t, e) ↦
            let d = update_of_found instruments now id fields rows v e in
            elim (Bool-cases (is_leaving instruments now id fields rows t)) [
              | inl g ↦ let d' = rw g at d in absurd (cc)
              | inr g ↦
                  let d' = rw g at d in
                  subst (HasOwner o) (cc)
                    (written-HasOwner instruments now id fields rows o unique e g h)
            ]
      ]
    ]
