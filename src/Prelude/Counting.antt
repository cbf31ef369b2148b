-- ===== src/Prelude/Counting.antt =====
-- Lists of numbers without repetition: membership, positions and counting.
use Prim.Native.Nat.{ℕ, zero, suc, ◌<◌, ◌≤◌}
use mathlib.Core.Path.{◌≡◌, refl, ap, subst}
use mathlib.Core.Logic.{◌≢◌, inl, inr}
use mathlib.Core.Bool.{true, false}
use mathlib.Core.List.{List, [], ◌∷◌}
use native.Mathlib.Omega.{arith}
use lied.Prelude.Tests.{◌==◌, if◌then◌else◌, ==_iff, Bool-cases}
use lied.Prelude.Lists.{length, All, All-imp, Pairs, contains}

abbrev pub Distinct : List ℕ → Type 0
Distinct = Pairs (λ x y. x ≢ y)

-- Every element of the first list is in the second.
abbrev pub Within : List ℕ → List ℕ → Type 0
Within ys xs = All (λ y. contains y xs ≡ true) ys

unfoldable pub erase : ℕ → List ℕ → List ℕ
erase a [] = []
erase a (x ∷ xs) = if x == a then xs else x ∷ erase a xs

pub not_contains_of_All : (a : ℕ) (xs : List ℕ) → All (λ x. a ≢ x) xs → contains a xs ≡ false
not_contains_of_All a [] _ = refl
not_contains_of_All a (x ∷ xs) (h, hs) = ground (arith, not_contains_of_All a xs hs)

pub All-of_not_contains : (a : ℕ) (xs : List ℕ) → contains a xs ≡ false → All (λ x. a ≢ x) xs
All-of_not_contains a [] _ = tt
All-of_not_contains a (x ∷ xs) h = (ground arith, All-of_not_contains a xs (ground arith))

pub length-erase :
    (a : ℕ) (xs : List ℕ) → contains a xs ≡ true → length xs ≡ suc (length (erase a xs))
unfolding erase
length-erase a [] h = cc
length-erase a (x ∷ xs) h = ground (arith, length-erase a xs)

pub contains-erase :
    (a b : ℕ) (xs : List ℕ) → a ≢ b → contains b xs ≡ true → contains b (erase a xs) ≡ true
unfolding erase
contains-erase a b [] ne h = cc
contains-erase a b (x ∷ xs) ne h = ground (arith, contains-erase a b xs ne)

pub Within-erase :
    (a : ℕ) (ys xs : List ℕ) → All (λ y. a ≢ y) ys → Within ys xs → Within ys (erase a xs)
Within-erase a [] xs _ _ = tt
Within-erase a (y ∷ ys) xs (n, ns) (h, hs) = (contains-erase a y xs n h, Within-erase a ys xs ns hs)

-- A list without repetition is no longer than a list that holds its elements.
pub length-le_of_Within : (ys xs : List ℕ) → Distinct ys → Within ys xs → length ys ≤ length xs
length-le_of_Within [] xs _ _ = omega arith
length-le_of_Within (y ∷ ys) xs (d, ds) (h, hs) =
    omega (
      arith,
      length-erase y xs h,
      length-le_of_Within ys (erase y xs) ds (Within-erase y ys xs d hs),
    )

All-erase {ℓ} : (P : ℕ → Type ℓ) (a : ℕ) (xs : List ℕ) → All P xs → All P (erase a xs)
unfolding erase
All-erase P a [] _ = tt
All-erase P a (x ∷ xs) (p, ps) = elim (Bool-cases (x == a)) [
  | inl e ↦ rw e ps
  | inr e ↦ rw e (p, All-erase P a xs ps)
]

Distinct-erase : (a : ℕ) (xs : List ℕ) → Distinct xs → Distinct (erase a xs)
unfolding erase
Distinct-erase a [] _ = tt
Distinct-erase a (x ∷ xs) (d, ds) = elim (Bool-cases (x == a)) [
  | inl e ↦ rw e ds
  | inr e ↦ rw e (All-erase (λ y. x ≢ y) a xs d, Distinct-erase a xs ds)
]

-- The erased element is gone, if it stood once.
All-erase_ne : (a : ℕ) (xs : List ℕ) → Distinct xs → All (λ x. a ≢ x) (erase a xs)
unfolding erase
All-erase_ne a [] _ = tt
All-erase_ne a (x ∷ xs) (d, ds) = elim (Bool-cases (x == a)) [
  | inl e ↦ rw e (let p = (==_iff x a).0 e in rw p at d)
  | inr e ↦ rw e (ground arith, All-erase_ne a xs ds)
]

pub drop_head : (x : ℕ) (xs ys : List ℕ) → All (λ y. x ≢ y) ys → Within ys (x ∷ xs) → Within ys xs
drop_head x xs [] _ _ = tt
drop_head x xs (y ∷ ys) (n, ns) (h, hs) = (ground arith, drop_head x xs ys ns hs)

length-erase_le : (a : ℕ) (xs : List ℕ) → length xs ≤ suc (length (erase a xs))
unfolding erase
length-erase_le a [] = omega arith
length-erase_le a (x ∷ xs) = ground (arith, length-erase_le a xs)

-- A list that holds the elements of another one without repetition, and is no longer, has no
-- repetition.
pub Distinct-of_Within :
    (xs ys : List ℕ) → Distinct ys → Within ys xs → length xs ≤ length ys → Distinct xs
Distinct-of_Within [] ys _ _ _ = tt
Distinct-of_Within (x ∷ xs) ys d h len = elim (Bool-cases (contains x xs)) [
  | inl e ↦ absurd (
      omega (
        arith,
        length-le_of_Within ys xs d
            (All-imp _ _ (λ y (k : contains y (x ∷ xs) ≡ true). ground arith) ys h),
      ))
  | inr e ↦ (
    All-of_not_contains x xs e,
    Distinct-of_Within xs (erase x ys) (Distinct-erase x ys d)
        (drop_head x xs (erase x ys) (All-erase_ne x ys d) (All-erase _ x ys h))
        (omega (arith, length-erase_le x ys)),
  )
]

-- n - 1, …, 0
below : ℕ → List ℕ
below zero = []
below (suc n) = n ∷ below n

length-below : (n : ℕ) → length (below n) ≡ n
unfolding below
length-below zero = refl
length-below (suc n) = ap suc (length-below n)

contains-below : (n a : ℕ) → a < n → contains a (below n) ≡ true
unfolding below
contains-below zero a h = absurd (omega arith)
contains-below (suc n) a h = ground (arith, contains-below n a)

-- There are at most `n` different numbers below `n`.
pub length-le_of_below : (n : ℕ) (xs : List ℕ) → Distinct xs → All (λ x. x < n) xs → length xs ≤ n
length-le_of_below n xs d h = omega (
  arith,
  length-below n,
  length-le_of_Within xs (below n) d (All-imp _ _ (λ a k. contains-below n a k) xs h),
)

pub contains_of_Within :
    (ys xs : List ℕ) (a : ℕ) → Within ys xs → contains a ys ≡ true → contains a xs ≡ true
contains_of_Within [] xs a _ h = absurd (cc)
contains_of_Within (y ∷ ys) xs a (w, ws) h = elim (Bool-cases (y == a)) [
  | inl e ↦ subst (λ b. contains b xs ≡ true) ((==_iff y a).0 e) w
  | inr e ↦ contains_of_Within ys xs a ws (ground arith)
]
