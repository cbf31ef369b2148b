-- ===== src/Prelude/Permutations.antt =====
-- Permutations of lists of numbers, by counting and containment.
use mathlib.Core.List.{Perm, Permᴰ}
use mathlib.Core.List.Perm
use mathlib.Core.Bool.{Bool-set}
use native.Mathlib.Nat.{ℕ_set}
use Prim.Native.Nat.{ℕ, suc, ◌≤◌}
use mathlib.Core.Path.{◌≡◌, refl, ap, ◌∙◌}
use mathlib.Core.Logic.{inl, inr}
use mathlib.Core.Bool.{true}
use mathlib.Core.List.{List, [], ◌∷◌}
use mathlib.Core.Logic.{∥∥₁_elim}
use native.Mathlib.Omega.{arith}
use lied.Prelude.Tests.{◌==◌, ==_iff, Bool-cases}
use lied.Prelude.Lists.{length, contains}
use lied.Prelude.Counting.{Distinct, Within, erase, Within-erase, length-erase}

perm-erase : (a : ℕ) (xs : List ℕ) → contains a xs ≡ true → Perm (a ∷ erase a xs) xs
unfolding erase
perm-erase a [] h = absurd (cc)
perm-erase a (x ∷ xs) h = elim (Bool-cases (x == a)) [
  | inl e ↦ rw e (let p : x ≡ a = (==_iff x a).0 e in rw p (Perm.refl _))
  | inr e ↦
      rw e (Perm.trans (Perm.swap x a (erase a xs)) (Perm.cons x (perm-erase a xs (ground arith))))
]

-- A list without repetition is a permutation of a list that holds its elements and is no longer.
pub perm_of_Within :
    (xs ys : List ℕ) → Distinct xs → Within xs ys → length ys ≤ length xs → Perm xs ys
perm_of_Within [] [] _ _ _ = Perm.refl []
perm_of_Within [] (y ∷ ys) _ _ h = absurd (omega arith)
perm_of_Within (x ∷ xs) ys (d, ds) (w, ws) h =
    Perm.trans
      (Perm.cons x (
        perm_of_Within xs (erase x ys) ds (Within-erase x xs ys d ws)
          (omega (arith, length-erase x ys w))))
      (perm-erase x ys w)

contains_permᴰ : (a : ℕ) {xs ys : List ℕ} → Permᴰ xs ys → contains a xs ≡ contains a ys
contains_permᴰ a Permᴰ.nil = refl
contains_permᴰ a (Permᴰ.cons {a = x} {b = y} e p) = ground (arith, contains_permᴰ a p)
contains_permᴰ a (Permᴰ.swap {a = x} {b = y} e f) = ground arith
contains_permᴰ a (Permᴰ.trans p q) = contains_permᴰ a p ∙ contains_permᴰ a q

pub contains_perm : (a : ℕ) {xs ys : List ℕ} → Perm xs ys → contains a xs ≡ contains a ys
contains_perm a p = ∥∥₁_elim p (Bool-set _ _) (contains_permᴰ a)

length_permᴰ : {xs ys : List ℕ} → Permᴰ xs ys → length xs ≡ length ys
length_permᴰ Permᴰ.nil = refl
length_permᴰ (Permᴰ.cons e p) = ap suc (length_permᴰ p)
length_permᴰ (Permᴰ.swap e f) = refl
length_permᴰ (Permᴰ.trans p q) = length_permᴰ p ∙ length_permᴰ q

pub length_perm : {xs ys : List ℕ} → Perm xs ys → length xs ≡ length ys
length_perm p = ∥∥₁_elim p (ℕ_set _ _) length_permᴰ
