-- ===== src/Prelude/Positions.antt =====
-- Positions in lists of numbers, and lists in a strict order.
use Prim.Native.Nat.{ℕ, zero, suc, ◌<◌}
use mathlib.Core.Path.{◌≡◌, refl, sym, subst, ◌∙◌}
use mathlib.Core.Logic.{◌≢◌, inl, inr}
use mathlib.Core.Bool.{true, false}
use mathlib.Core.List.{List, [], ◌∷◌}
use mathlib.Core.Option.{Option, none, some}
use native.Mathlib.Omega.{arith}
use lied.Prelude.Tests.{◌==◌, if◌then◌else◌, ==_iff, ==_refl, Bool-cases}
use lied.Prelude.Lists.{length, All, All-imp, Pairs, Pairs-imp, contains}
use lied.Prelude.Counting.{Distinct, Within, drop_head}

-- The place of the first `a`, from 0.
abbrev pub position_of : ℕ → List ℕ → Option ℕ
position_of a [] = none
position_of a (x ∷ xs) =
    if x == a then some 0 else elim (position_of a xs) [ none ↦ none | some j ↦ some (suc j) ]

pub position_of-eq-none : (a : ℕ) (xs : List ℕ) → contains a xs ≡ false → position_of a xs ≡ none
position_of-eq-none a [] _ = refl
position_of-eq-none a (x ∷ xs) h = ground (arith, position_of-eq-none a xs)

pub position_of-contains :
    (a : ℕ) (xs : List ℕ) → contains a xs ≡ true → (j : ℕ) × (position_of a xs ≡ some j)
position_of-contains a [] h = cc
position_of-contains a (x ∷ xs) h = elim (Bool-cases (x == a)) [
  | inl e ↦ (0, ground arith)
  | inr e ↦ let (j, p) = position_of-contains a xs (ground arith) in (suc j, ground arith)
]

pub position_of-injective :
    (a b : ℕ) (xs : List ℕ) (j : ℕ) → position_of a xs ≡ some j → position_of b xs ≡ some j → a ≡ b
position_of-injective a b [] j p q = cc
position_of-injective a b (x ∷ xs) zero p q = ground arith
position_of-injective a b (x ∷ xs) (suc j) p q =
    position_of-injective a b xs j (ground arith) (ground arith)

pub All_contains {ℓ} :
    (P : ℕ → Type ℓ) (a : ℕ) (xs : List ℕ) → All P xs → contains a xs ≡ true → P a
All_contains P a [] _ h = absurd (cc)
All_contains P a (x ∷ xs) (p, ps) h = elim (Bool-cases (x == a)) [
  | inl e ↦ subst P ((==_iff x a).0 e) p
  | inr e ↦ All_contains P a xs ps (ground arith)
]

Within-cons : (x : ℕ) (ys xs : List ℕ) → Within ys xs → Within ys (x ∷ xs)
Within-cons x ys xs h = All-imp _ _ (λ y (k : contains y xs ≡ true). ground arith) ys h

pub Within-refl : (xs : List ℕ) → Within xs xs
Within-refl [] = tt
Within-refl (x ∷ xs) = (ground (arith, ==_refl x), Within-cons x xs xs (Within-refl xs))

-- `x` stands before `y` in the list.
abbrev pub Precedes : List ℕ → ℕ → ℕ → Type 0
Precedes ids x y =
    (i : ℕ) × (j : ℕ) × (position_of x ids ≡ some i) × (position_of y ids ≡ some j) × (i < j)

Precedes-cons :
    (a : ℕ) (xs : List ℕ) (x y : ℕ) → a ≢ x → a ≢ y → Precedes xs x y → Precedes (a ∷ xs) x y
Precedes-cons a xs x y nx ny (i, j, p, q, lt) =
    (suc i, suc j, ground arith, ground arith, omega arith)

Precedes-head : (a : ℕ) (xs : List ℕ) (y : ℕ) → a ≢ y → contains y xs ≡ true → Precedes (a ∷ xs) a y
Precedes-head a xs y ne h =
    let (j, q) = position_of-contains y xs h in
    (0, suc j, ground (arith, ==_refl a), ground arith, omega arith)

Precedes-All :
    (a : ℕ) (xs ys : List ℕ) → All (λ y. a ≢ y) ys → Within ys xs → All (Precedes (a ∷ xs) a) ys
Precedes-All a xs [] _ _ = tt
Precedes-All a xs (y ∷ ys) (n, ns) (h, hs) = (Precedes-head a xs y n h, Precedes-All a xs ys ns hs)

-- A list without repetition is in the order of its own positions.
pub Distinct-Precedes : (ids : List ℕ) → Distinct ids → Pairs (Precedes ids) ids
Distinct-Precedes [] _ = tt
Distinct-Precedes (a ∷ xs) (d, ds) = (
  Precedes-All a xs xs d (Within-refl xs),
  Pairs-imp (λ x. a ≢ x) (Precedes xs) (Precedes (a ∷ xs)) (Precedes-cons a xs) xs d
      (Distinct-Precedes xs ds),
)

Precedes-irrefl : (ids : List ℕ) (x y : ℕ) → Precedes ids x y → x ≢ y
Precedes-irrefl ids x y (i, j, p, q, lt) e = ground arith

Precedes-asymm : (ids : List ℕ) (x y : ℕ) → Precedes ids x y → Precedes ids y x → ⊥
Precedes-asymm ids x y (i, j, p, q, lt) (k, l, p', q', lt') = ground arith

heads_agree :
    (ids : List ℕ) (x y : ℕ) (xs ys : List ℕ)
    → All (Precedes ids x) xs
    → All (Precedes ids y) ys
    → contains x (y ∷ ys) ≡ true
    → contains y (x ∷ xs) ≡ true
    → x ≡ y
heads_agree ids x y xs ys h k p q = elim (Bool-cases (y == x)) [
  | inl e ↦ sym ((==_iff y x).0 e)
  | inr e ↦ absurd (
      Precedes-asymm ids x y (All_contains (Precedes ids x) y xs h (ground arith))
        (All_contains (Precedes ids y) x ys k (ground arith)))
]

-- Two lists of the same elements in the same strict order are equal.
pub eq_of_Precedes :
    (ids xs ys : List ℕ)
    → Pairs (Precedes ids) xs
    → Pairs (Precedes ids) ys
    → Within xs ys
    → Within ys xs
    → xs ≡ ys
eq_of_Precedes ids [] [] _ _ _ _ = refl
eq_of_Precedes ids [] (y ∷ ys) _ _ _ w = absurd (cc w.0)
eq_of_Precedes ids (x ∷ xs) [] _ _ v _ = absurd (cc v.0)
eq_of_Precedes ids (x ∷ xs) (y ∷ ys) (h, hs) (k, ks) (p, v) (q, w) =
    let same : x ≡ y = heads_agree ids x y xs ys h k p q in
    let ne_xs : All (λ z. y ≢ z) xs =
      All-imp (Precedes ids x) _ (λ z l e. Precedes-irrefl ids x z l (same ∙ e)) xs h in
    let ne_ys : All (λ z. x ≢ z) ys =
      All-imp (Precedes ids y) _ (λ z l e. Precedes-irrefl ids y z l (sym same ∙ e)) ys k in
    let rest : xs ≡ ys =
      eq_of_Precedes ids xs ys hs ks (drop_head y ys xs ne_xs v) (drop_head x xs ys ne_ys w) in
    cc

pub contains_of_position_of :
    (a : ℕ) (xs : List ℕ) (j : ℕ) → position_of a xs ≡ some j → contains a xs ≡ true
contains_of_position_of a [] j p = cc
contains_of_position_of a (x ∷ xs) zero p = ground (arith, contains_of_position_of a xs 0)
contains_of_position_of a (x ∷ xs) (suc j) p = ground (arith, contains_of_position_of a xs j)

pub position_of-lt-length :
    (a : ℕ) (xs : List ℕ) (j : ℕ) → position_of a xs ≡ some j → j < length xs
position_of-lt-length a [] j p = absurd (cc p)
position_of-lt-length a (x ∷ xs) zero p = omega arith
position_of-lt-length a (x ∷ xs) (suc j) p = ground (arith, position_of-lt-length a xs j)
