-- ===== src/Domain/CollectionItem/Lookup.antt =====
-- The look-up of `restore`: the row that it finds is the only one with its id.
use lied.Prelude.{
  ℕ, ◌≡◌, refl, sym, subst, Bool, true, false, ◌&&◌, [], ◌∷◌, inl, inr, some, All, All-imp,
  All-find, any, find, find_here, find_later, ◌==◌, ==_refl, arith, Bool-cases, is_some,
}
use lied.Sql.{collides}
use lied.Domain.CollectionItem.{CollectionItem, Table, indexes, is_live, is_live_in}
use lied.Domain.CollectionItem.Placement.{IsConsistent, IsInRange}
use lied.Domain.CollectionItem.Revive.{IsReady}

abbrev pub is_removed : ℕ → ℕ → CollectionItem → Bool
is_removed c id r = r.id == id && (r.collection_id == c && is_some r.deleted_at)

module _ (c id : ℕ) where
  find-holds :
      (rows : Table) (t : CollectionItem)
      → find (is_removed c id) rows ≡ some t
      → is_removed c id t ≡ true
  find-holds [] t e = absurd (cc)
  find-holds (r ∷ rows) t e = elim (Bool-cases (is_removed c id r)) [
    | inl k ↦ subst (λ x. is_removed c id x ≡ true) (find_here (is_removed c id) r rows k e) k
    | inr k ↦ find-holds rows t (find_later (is_removed c id) r rows k e)
  ]

  pub id_of_find :
      (rows : Table) (t : CollectionItem) → find (is_removed c id) rows ≡ some t → t.id ≡ id
  id_of_find rows t e = let p = find-holds rows t e in ground arith

  pub any_of_find :
      (rows : Table) (t : CollectionItem)
      → find (is_removed c id) rows ≡ some t
      → any (λ r. r.id == t.id) rows ≡ true
  any_of_find [] t e = absurd (cc)
  any_of_find (r ∷ rows) t e = elim (Bool-cases (is_removed c id r)) [
    | inl k ↦
        subst (λ x. any (λ s. s.id == x.id) (r ∷ rows) ≡ true)
          (find_here (is_removed c id) r rows k e) (ground (arith, ==_refl r.id))
    | inr k ↦ ground (arith, any_of_find rows t (find_later (is_removed c id) r rows k e))
  ]

  -- The primary key makes the row that was found the only one with its id.
  target_of_find :
      (rows : Table) (t : CollectionItem)
      → IsConsistent rows
      → find (is_removed c id) rows ≡ some t
      → All (λ r. r.id ≡ t.id → r ≡ t) rows
  target_of_find [] t _ e = tt
  target_of_find (r ∷ rows) t (h, hs) e = elim (Bool-cases (is_removed c id r)) [
    | inl k ↦
        let same : r ≡ t = find_here (is_removed c id) r rows k e in
        (
          λ _. same,
          subst (λ x. All (λ s. s.id ≡ x.id → s ≡ x) rows) same
              (All-imp _ _ (λ s n p. absurd (ground arith)) rows h),
        )
    | inr k ↦
        let later = find_later (is_removed c id) r rows k e in
        let apart = All-find (λ s. collides indexes r s ≡ false) (is_removed c id) rows h later in
        (λ p. absurd (ground arith), target_of_find rows t hs later)
  ]

module _ (now c id : ℕ) where
  IsReady-All :
      (t : CollectionItem)
      → is_removed c id t ≡ true
      → (rows : Table) → All (IsInRange c) rows
      → All (λ r. r.id ≡ t.id → r ≡ t) rows
      → any (λ r. is_live_in c r && r.arrangement_id == t.arrangement_id) rows ≡ false
      → All (IsReady now c t) rows
  IsReady-All t p [] _ _ _ = tt
  IsReady-All t p (r ∷ rows) (g, gs) (s, ss) free = (
    record {
      in_range = g;
      target = λ q.
          subst
            (λ x.
              (x.collection_id ≡ c) × (x.arrangement_id ≡ t.arrangement_id) × (is_live x ≡ false))
            (sym (s q)) (ground arith, refl, ground arith);
      no_clash = ground arith;
    },
    IsReady-All t p rows gs ss (ground arith),
  )

  pub IsReady-of_find :
      (rows : Table) (t : CollectionItem)
      → IsConsistent rows
      → All (IsInRange c) rows
      → find (is_removed c id) rows ≡ some t
      → any (λ r. is_live_in c r && r.arrangement_id == t.arrangement_id) rows ≡ false
      → All (IsReady now c t) rows
  IsReady-of_find rows t h range e free =
      IsReady-All t (find-holds c id rows t e) rows range (target_of_find c id rows t h e) free
