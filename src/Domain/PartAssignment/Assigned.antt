-- ===== src/Domain/PartAssignment/Assigned.antt =====
-- `assign` of lied/src/domain/part_assignment.rs: what is in the table afterwards.
use lied.Prelude.{
  ℕ, ◌≡◌, refl, ap, subst, Bool, true, false, not, ◌&&◌, Option, none, some, List, [], ◌∷◌, ◌++◌,
  inl, inr, find, keep, any, contains, is_none, Bool-cases, Option-cases, ◌==◌, arith, ok,
}
use lied.Domain.PartAssignment.{
  PartAssignment, Table, Programme, is_part, reassigned, replaced, new_part, is_user, can_play,
  write_part, assign, find_by_item_voice,
}

abbrev pub others : ℕ → ℕ → Table → Table
others item voice = keep (λ r. not (is_part item voice r))

find-snoc :
    (p : PartAssignment → Bool) (rows : Table) (x : PartAssignment)
    → find p rows ≡ none
    → p x ≡ true
    → find p (rows ++ x ∷ []) ≡ some x
find-snoc p [] x e h = rw h refl
find-snoc p (r ∷ rows) x e h = elim (Bool-cases (p r)) [
  | inl k ↦ let e' = rw k at e in absurd (cc)
  | inr k ↦ rw k (find-snoc p rows x (rw k at e) h)
]

keep-not-snoc :
    (p : PartAssignment → Bool) (rows : Table) (x : PartAssignment)
    → p x ≡ true
    → keep (λ r. not (p r)) (rows ++ x ∷ []) ≡ keep (λ r. not (p r)) rows
keep-not-snoc p [] x h = rw h refl
keep-not-snoc p (r ∷ rows) x h = elim (Bool-cases (p r)) [
  | inl k ↦ rw k (keep-not-snoc p rows x h)
  | inr k ↦ rw k (ap (λ rs. r ∷ rs) (keep-not-snoc p rows x h))
]

module _ (now item voice user : ℕ) where
  find-replaced :
      (rows : Table) {old : PartAssignment}
      → find (is_part item voice) rows ≡ some old
      → find (is_part item voice) (replaced now item voice user rows)
        ≡ some (reassigned now user old)
  find-replaced [] e = absurd (cc)
  find-replaced (r ∷ rows) e = elim (Bool-cases (is_part item voice r)) [
    | inl k ↦
        let e' = rw k at e in
        rw (k, k) (ap (λ o. elim o [ none ↦ none | some s ↦ some (reassigned now user s) ]) e')
    | inr k ↦ rw (k, k) (find-replaced rows (rw k at e))
  ]

  others-replaced :
      (rows : Table)
      → others item voice (replaced now item voice user rows) ≡ others item voice rows
  others-replaced [] = refl
  others-replaced (r ∷ rows) = elim (Bool-cases (is_part item voice r)) [
    | inl k ↦ rw (k, k) (others-replaced rows)
    | inr k ↦ rw (k, k) (ap (λ rs. r ∷ rs) (others-replaced rows))
  ]

-- What the answer `(part, inserted)` and the new table say of the old one.
pub record IsAssigned (item voice user : ℕ) (rows : Table)
    (answer : (PartAssignment × Bool) × Table) : Type 0 where
  pub found : find_by_item_voice item voice answer.1 ≡ some answer.0.0
  pub assignee : answer.0.0.user_id ≡ user
  pub untouched : others item voice answer.1 ≡ others item voice rows
  pub inserted : answer.0.1 ≡ is_none (find_by_item_voice item voice rows)

module _ (users : List ℕ) (now id item voice user : ℕ) (created_by : Option ℕ) (rows : Table) where
  abbrev part : PartAssignment
  part = new_part now id item voice user created_by

  replaced-IsAssigned :
      {old : PartAssignment}
      → find (is_part item voice) rows ≡ some old
      → IsAssigned item voice user rows
          ((reassigned now user old, false), replaced now item voice user rows)
  unfolding find_by_item_voice
  replaced-IsAssigned e = record {
    found = find-replaced now item voice user rows e;
    assignee = refl;
    untouched = others-replaced now item voice user rows;
    inserted = rw e refl;
  }

  inserted-IsAssigned :
      find (is_part item voice) rows ≡ none
      → IsAssigned item voice user rows ((part, true), rows ++ part ∷ [])
  unfolding find_by_item_voice
  inserted-IsAssigned e =
      let mine : is_part item voice part ≡ true = ground arith in
      record {
        found = find-snoc (is_part item voice) rows part e mine;
        assignee = refl;
        untouched = keep-not-snoc (is_part item voice) rows part mine;
        inserted = rw e refl;
      }

  pub write_part-IsAssigned :
      {answer : (PartAssignment × Bool) × Table}
      → write_part users now part rows ≡ ok answer
      → IsAssigned item voice user rows answer
  unfolding write_part
  write_part-IsAssigned h = elim (Option-cases (find (is_part item voice) rows)) [
    | inr (old, e) ↦ elim (Bool-cases (contains user users)) [
      | inl u ↦
          let h' = rw (write_part, e, u) at h in
          subst (IsAssigned item voice user rows) (cc) (replaced-IsAssigned e)
      | inr u ↦ let h' = rw (write_part, e, u) at h in absurd (cc)
    ]
    | inl e ↦ elim (Bool-cases (any (λ r. r.id == id) rows)) [
      | inl k ↦ let h' = rw (write_part, e, k) at h in absurd (cc)
      | inr k ↦ elim (Bool-cases (contains user users && is_user users created_by)) [
        | inl u ↦
            let h' = rw (write_part, e, k, u) at h in
            subst (IsAssigned item voice user rows) (cc) (inserted-IsAssigned e)
        | inr u ↦ let h' = rw (write_part, e, k, u) at h in absurd (cc)
      ]
    ]
  ]

-- When `assign` succeeds, the voice of the item is afterwards played by the given user, by the row
-- that is returned; the rows of all other voices and items are the same, and the flag says whether
-- the voice had no row before.
pub assign-IsAssigned :
    (programme : Programme) (now id item voice user : ℕ) (created_by : Option ℕ) (rows : Table)
    {answer : (PartAssignment × Bool) × Table}
    → assign programme now id item voice user created_by rows ≡ ok answer
    → IsAssigned item voice user rows answer
unfolding assign
assign-IsAssigned programme now id item voice user created_by rows h =
    elim (Bool-cases (can_play programme item voice)) [
      | inr k ↦ let h' = rw k at h in absurd (cc)
      | inl k ↦
          write_part-IsAssigned programme.users now id item voice user created_by rows (rw k at h)
    ]
