-- ===== src/Sql/OrderBy.antt =====
-- `ORDER BY` keeps the rows and puts them in order.
use lied.Prelude.{
  ℕ, suc, ◌≡◌, refl, sym, ◌∙◌, ap, Bool, true, false, ◌||◌, List, [], ◌∷◌, map, inl, inr, length,
  All, All-imp, Pairs, All-keep, keep, contains, Bool-cases, if◌then◌else◌, ◌==◌, arith,
}
use lied.Sql.{insert_sorted, order_by}

module _ {ℓ κ} {R : Type ℓ} (before : R → R → Bool) (P : R → Type κ) where
  All-insert_sorted : (x : R) (xs : List R) → P x → All P xs → All P (insert_sorted before x xs)
  unfolding insert_sorted
  All-insert_sorted x [] p _ = (p, tt)
  All-insert_sorted x (y ∷ ys) p (q, qs) = elim (Bool-cases (before x y)) [
    | inl e ↦ rw e (p, (q, qs))
    | inr e ↦ rw e (q, All-insert_sorted x ys p qs)
  ]

  pub All-order_by : (xs : List R) → All P xs → All P (order_by before xs)
  unfolding order_by
  All-order_by [] _ = tt
  All-order_by (x ∷ xs) (p, ps) = All-insert_sorted x (order_by before xs) p (All-order_by xs ps)

module _ {ℓ κ} {R : Type ℓ} (before : R → R → Bool) (S : R → R → Type κ) where
  Pairs-insert_sorted :
      ((x y : R) → S x y → S y x)
      → (x : R) (xs : List R) → All (S x) xs
      → Pairs S xs
      → Pairs S (insert_sorted before x xs)
  unfolding insert_sorted
  Pairs-insert_sorted symm x [] _ _ = (tt, tt)
  Pairs-insert_sorted symm x (y ∷ ys) (h, hs) (k, ks) = elim (Bool-cases (before x y)) [
    | inl e ↦ rw e ((h, hs), (k, ks))
    | inr e ↦
        rw e
          (All-insert_sorted before (S y) x ys (symm x y h) k, Pairs-insert_sorted symm x ys hs ks)
  ]

  -- A symmetric relation between the rows survives.
  pub Pairs-order_by :
      ((x y : R) → S x y → S y x) → (xs : List R) → Pairs S xs → Pairs S (order_by before xs)
  unfolding order_by
  Pairs-order_by symm [] _ = tt
  Pairs-order_by symm (x ∷ xs) (h, hs) =
      Pairs-insert_sorted symm x (order_by before xs) (All-order_by before (S x) xs h)
        (Pairs-order_by symm xs hs)

module _ {ℓ} {R : Type ℓ} (before : R → R → Bool) (f : R → ℕ) where
  contains-insert_sorted :
      (a : ℕ) (x : R) (xs : List R)
      → contains a (map f (insert_sorted before x xs)) ≡ contains a (map f (x ∷ xs))
  unfolding insert_sorted
  contains-insert_sorted a x [] = refl
  contains-insert_sorted a x (y ∷ ys) = elim (Bool-cases (before x y)) [
    | inl e ↦ rw e
    | inr e ↦ rw e (ground (arith, contains-insert_sorted a x ys))
  ]

  pub contains-order_by :
      (a : ℕ) (xs : List R) → contains a (map f (order_by before xs)) ≡ contains a (map f xs)
  unfolding order_by
  contains-order_by a [] = refl
  contains-order_by a (x ∷ xs) =
      contains-insert_sorted a x (order_by before xs)
      ∙ ap (λ b. f x == a || b) (contains-order_by a xs)

module _ {ℓ} {R : Type ℓ} (before : R → R → Bool) where
  length-insert_sorted :
      (x : R) (xs : List R) → length (insert_sorted before x xs) ≡ suc (length xs)
  unfolding insert_sorted
  length-insert_sorted x [] = refl
  length-insert_sorted x (y ∷ ys) = ground (arith, length-insert_sorted x ys)

  pub length-order_by : (xs : List R) → length (order_by before xs) ≡ length xs
  unfolding order_by
  length-order_by [] = refl
  length-order_by (x ∷ xs) =
      length-insert_sorted x (order_by before xs) ∙ ap suc (length-order_by xs)

  abbrev pub Before : R → R → Type 0
  Before x y = before x y ≡ true

  module _ (total : (x y : R) → before x y ≡ false → Before y x)
      (trans : (x y z : R) → Before x y → Before y z → Before x z) where
    insert_sorted-IsSorted :
        (x : R) (xs : List R) → Pairs Before xs → Pairs Before (insert_sorted before x xs)
    unfolding insert_sorted
    insert_sorted-IsSorted x [] _ = (tt, tt)
    insert_sorted-IsSorted x (y ∷ ys) (h, hs) = elim (Bool-cases (before x y)) [
      | inl e ↦ rw e ((e, All-imp (Before y) (Before x) (λ z k. trans x y z e k) ys h), (h, hs))
      | inr e ↦
          rw e (
            All-insert_sorted before (Before y) x ys (total x y e) h,
            insert_sorted-IsSorted x ys hs,
          )
    ]

    pub order_by-IsSorted : (xs : List R) → Pairs Before (order_by before xs)
    unfolding order_by
    order_by-IsSorted [] = tt
    order_by-IsSorted (x ∷ xs) =
        insert_sorted-IsSorted x (order_by before xs) (order_by-IsSorted xs)

    insert_sorted_front :
        (x : R) (xs : List R) → All (Before x) xs → insert_sorted before x xs ≡ x ∷ xs
    unfolding insert_sorted
    insert_sorted_front x [] _ = refl
    insert_sorted_front x (y ∷ ys) (h, _) = rw h

    keep-insert_sorted :
        (p : R → Bool) (x : R) (xs : List R)
        → Pairs Before xs
        → keep p (insert_sorted before x xs)
          ≡ (if p x then insert_sorted before x (keep p xs) else keep p xs)
    unfolding insert_sorted
    keep-insert_sorted p x [] _ = ground arith
    keep-insert_sorted p x (y ∷ ys) (h, hs) = elim (Bool-cases (before x y)) [
      | inl e ↦
          let front = insert_sorted_front x (keep p (y ∷ ys)) (
            All-keep p (Before x) _ (λ _ _ k. k) (y ∷ ys)
              (e, All-imp (Before y) (Before x) (λ z k. trans x y z e k) ys h)) in
          rw (e, front)
      | inr e ↦ rw e (ground (arith, keep-insert_sorted p x ys hs))
    ]

    -- Sorting and then filtering is filtering and then sorting.
    pub order_by-keep :
        (p : R → Bool) (xs : List R) → order_by before (keep p xs) ≡ keep p (order_by before xs)
    unfolding order_by
    order_by-keep p [] = refl
    order_by-keep p (x ∷ xs) =
        let step = keep-insert_sorted p x (order_by before xs) (order_by-IsSorted xs) in
        elim (Bool-cases (p x)) [
          | inl e ↦ rw e (ap (insert_sorted before x) (order_by-keep p xs) ∙ sym (rw e at step))
          | inr e ↦ rw e (order_by-keep p xs ∙ sym (rw e at step))
        ]
