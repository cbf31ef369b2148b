-- ===== src/Sql/Lookup.antt =====
-- Rows that are found by their key, and what is left when they are taken out or written.
use lied.Prelude.{
  ℕ, ◌≡◌, ◌≢◌, refl, sym, subst, Bool, true, false, not, ◌&&◌, some, List, [], ◌∷◌, map, inl, inr,
  any, find, keep, length, All, All-imp, Pairs, Bool-cases, find_here, find_later, if◌then◌else◌,
  ◌==◌, arith,
}

module _ {ℓ} {R : Type ℓ} (key : R → ℕ) where
  abbrev pub HasUniqueKeys : List R → Type 0
  HasUniqueKeys = Pairs (λ r s. key r ≢ key s)

  -- The row that is found by its key is the only one with this key.
  pub only_of_find :
      (k : ℕ) (rows : List R) {t : R}
      → HasUniqueKeys rows
      → find (λ r. key r == k) rows ≡ some t
      → All (λ r. (key r == k) ≡ true → r ≡ t) rows
  only_of_find k [] _ _ = tt
  only_of_find k (r ∷ rows) {t} (d, ds) e = elim (Bool-cases (key r == k)) [
    | inl h ↦
        let same = find_here (λ s. key s == k) r rows h e in
        (
          λ _. same,
          All-imp (λ s. key r ≢ key s) (λ s. (key s == k) ≡ true → s ≡ t)
              (λ s n g. absurd (n (ground arith))) rows d,
        )
    | inr h ↦ (λ g. absurd (cc), only_of_find k rows ds (find_later (λ s. key s == k) r rows h e))
  ]

module _ {ℓ} {R : Type ℓ} (p q : R → Bool) where
  pub any-keep-not :
      (rows : List R) → any q (keep (λ r. not (p r)) rows) ≡ any (λ r. q r && not (p r)) rows
  any-keep-not [] = refl
  any-keep-not (r ∷ rows) = elim (Bool-cases (p r)) [
    | inl e ↦ rw e (ground (arith, any-keep-not rows))
    | inr e ↦ rw e (ground (arith, any-keep-not rows))
  ]

  pub any_of_others :
      (rows : List R)
      → All (λ r. p r ≡ true → q r ≡ false) rows
      → any q rows ≡ true
      → any (λ r. q r && not (p r)) rows ≡ true
  any_of_others [] _ e = e
  any_of_others (r ∷ rows) (h, hs) e = elim (Bool-cases (p r)) [
    | inl k ↦ let n = h k in ground (arith, any_of_others rows hs)
    | inr k ↦ ground (arith, any_of_others rows hs)
  ]

  pub any-map_of_others :
      (g : R → R) (rows : List R)
      → any (λ r. q r && not (p r)) rows ≡ true
      → any q (map (λ r. if p r then g r else r) rows) ≡ true
  any-map_of_others g [] e = e
  any-map_of_others g (r ∷ rows) e = elim (Bool-cases (p r)) [
    | inl k ↦ rw k (ground (arith, any-map_of_others g rows))
    | inr k ↦ rw k (ground (arith, any-map_of_others g rows))
  ]

  -- The selected row satisfies `q` after it is written.
  pub any-map_of_written :
      (g : R → R) (rows : List R)
      → All (λ r. p r ≡ true → q (g r) ≡ true) rows
      → any p rows ≡ true
      → any q (map (λ r. if p r then g r else r) rows) ≡ true
  any-map_of_written g [] _ e = absurd (cc)
  any-map_of_written g (r ∷ rows) (h, hs) e = elim (Bool-cases (p r)) [
    | inl k ↦ let n = h k in rw k (ground arith)
    | inr k ↦ rw k (ground (arith, any-map_of_written g rows hs))
  ]

pub any_of_length {ℓ} :
    {R : Type ℓ} (p : R → Bool) (rows : List R)
    → (length (keep p rows) == 0) ≡ false
    → any p rows ≡ true
any_of_length p [] e = absurd (ground arith)
any_of_length p (r ∷ rows) e = elim (Bool-cases (p r)) [
  | inl k ↦ ground arith
  | inr k ↦ let n = rw k at e in ground (arith, any_of_length p rows n)
]

pub length_of_any {ℓ} :
    {R : Type ℓ} (p : R → Bool) (rows : List R) → any p rows ≡ false → length (keep p rows) ≡ 0
length_of_any p [] e = refl
length_of_any p (r ∷ rows) e = elim (Bool-cases (p r)) [
  | inl k ↦ absurd (ground arith)
  | inr k ↦ rw k (ground (arith, length_of_any p rows))
]

pub any_of_find {ℓ} :
    {R : Type ℓ} (p : R → Bool) (rows : List R) {t : R} → find p rows ≡ some t → any p rows ≡ true
any_of_find p [] e = absurd (cc)
any_of_find p (r ∷ rows) e = elim (Bool-cases (p r)) [
  | inl k ↦ ground arith
  | inr k ↦ let n = find_later p r rows k e in ground (arith, any_of_find p rows n)
]

pub holds_of_find {ℓ} :
    {R : Type ℓ} (p : R → Bool) (rows : List R) {t : R} → find p rows ≡ some t → p t ≡ true
holds_of_find p [] e = absurd (cc)
holds_of_find p (r ∷ rows) e = elim (Bool-cases (p r)) [
  | inl k ↦ subst (λ s. p s ≡ true) (find_here p r rows k e) k
  | inr k ↦ holds_of_find p rows (find_later p r rows k e)
]

pub any_of_zero {ℓ} :
    {R : Type ℓ} (p : R → Bool) (rows : List R)
    → (length (keep p rows) == 0) ≡ true
    → any p rows ≡ false
any_of_zero p [] e = refl
any_of_zero p (r ∷ rows) e = elim (Bool-cases (p r)) [
  | inl k ↦ let n = rw k at e in absurd (ground arith)
  | inr k ↦ let n = rw k at e in ground (arith, any_of_zero p rows n)
]

-- What holds of the found row holds of some row.
pub any_of_found {ℓ} :
    {R : Type ℓ} (p q : R → Bool) (rows : List R) {t : R}
    → find p rows ≡ some t
    → q t ≡ true
    → any q rows ≡ true
any_of_found p q [] e h = absurd (cc)
any_of_found p q (r ∷ rows) {t} e h = elim (Bool-cases (p r)) [
  | inl k ↦ let n = subst (λ s. q s ≡ true) (sym (find_here p r rows k e)) h in ground arith
  | inr k ↦ let n = any_of_found p q rows (find_later p r rows k e) h in ground arith
]
