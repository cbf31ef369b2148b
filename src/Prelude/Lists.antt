-- ===== src/Prelude/Lists.antt =====
-- Lists measured and searched by native numbers, and predicates on lists by recursion.
use Prim.Native.Nat.{ℕ, suc, ◌+◌}
use mathlib.Core.Path.{◌≡◌, refl, ap, subst}
use mathlib.Core.Logic.{inl, inr}
use mathlib.Core.Bool.{Bool, true, false, ◌&&◌, ◌||◌}
use mathlib.Core.List.{List, [], ◌∷◌, ◌++◌, map}
use mathlib.Core.Option.{Option, none, some}
use native.Mathlib.Omega.{arith}
use lied.Prelude.Tests.{◌==◌, if◌then◌else◌, Bool-cases}

module _ {ℓ} {A : Type ℓ} where
  abbrev pub length : List A → ℕ
  length [] = 0
  length (x ∷ xs) = suc (length xs)

  abbrev pub keep : (A → Bool) → List A → List A
  keep p [] = []
  keep p (x ∷ xs) = if p x then x ∷ keep p xs else keep p xs

  abbrev pub any : (A → Bool) → List A → Bool
  any p [] = false
  any p (x ∷ xs) = p x || any p xs

  abbrev pub all : (A → Bool) → List A → Bool
  all p [] = true
  all p (x ∷ xs) = p x && all p xs

  abbrev pub find : (A → Bool) → List A → Option A
  find p [] = none
  find p (x ∷ xs) = if p x then some x else find p xs

  pub length-append : (xs ys : List A) → length (xs ++ ys) ≡ length xs + length ys
  length-append [] ys = omega arith
  length-append (x ∷ xs) ys = omega (arith, length-append xs ys)

module _ {ℓ κ} {A : Type ℓ} (P : A → Type κ) where
  abbrev pub All : List A → Type κ
  All [] = Unit
  All (x ∷ xs) = P x × All xs

  pub All-append : (xs ys : List A) → All xs → All ys → All (xs ++ ys)
  All-append [] ys _ hy = hy
  All-append (x ∷ xs) ys (px, hx) hy = (px, All-append xs ys hx hy)

  pub All-intro : ((a : A) → P a) → (xs : List A) → All xs
  All-intro h [] = tt
  All-intro h (x ∷ xs) = (h x, All-intro h xs)

module _ {ℓ κ μ} {A : Type ℓ} (P : A → Type κ) (Q : A → Type μ) where
  pub All-imp : ((a : A) → P a → Q a) → (xs : List A) → All P xs → All Q xs
  All-imp h [] _ = tt
  All-imp h (x ∷ xs) (p, ps) = (h x p, All-imp h xs ps)

module _ {ℓ κ μ} {A : Type ℓ} {B : Type κ} (P : B → Type μ) (f : A → B) where
  pub All-map : (xs : List A) → All (λ a. P (f a)) xs → All P (map f xs)
  All-map [] _ = tt
  All-map (x ∷ xs) (p, ps) = (p, All-map xs ps)

-- `R x y` for every `x` that stands before `y`.
module _ {ℓ κ} {A : Type ℓ} (R : A → A → Type κ) where
  abbrev pub Pairs : List A → Type κ
  Pairs [] = Unit
  Pairs (x ∷ xs) = All (R x) xs × Pairs xs

module _ {ℓ κ μ ν} {A : Type ℓ} (P : A → Type κ) (R : A → A → Type μ) (S : A → A → Type ν) where
  All-imp_pair :
      (x : A) (xs : List A)
      → ((y : A) → P y → R x y → S x y)
      → All P xs
      → All (R x) xs
      → All (S x) xs
  All-imp_pair x [] h _ _ = tt
  All-imp_pair x (y ∷ ys) h (p, ps) (r, rs) = (h y p r, All-imp_pair x ys h ps rs)

  pub Pairs-imp :
      ((x y : A) → P x → P y → R x y → S x y) → (xs : List A) → All P xs → Pairs R xs → Pairs S xs
  Pairs-imp h [] _ _ = tt
  Pairs-imp h (x ∷ xs) (p, ps) (r, rs) =
      (All-imp_pair x xs (λ y. h x y p) ps r, Pairs-imp h xs ps rs)

pub Pairs-map {ℓ κ μ} :
    {A : Type ℓ} {B : Type κ} (R : B → B → Type μ) (f : A → B) (xs : List A)
    → Pairs (λ x y. R (f x) (f y)) xs
    → Pairs R (map f xs)
Pairs-map R f [] _ = tt
Pairs-map R f (x ∷ xs) (r, rs) = (All-map (R (f x)) f xs r, Pairs-map R f xs rs)

-- Equal maps on the elements of a list.
pub map-eq_of_All {ℓ κ} :
    {A : Type ℓ} {B : Type κ} (f g : A → B) (xs : List A)
    → All (λ x. f x ≡ g x) xs
    → map f xs ≡ map g xs
map-eq_of_All f g [] _ = refl
map-eq_of_All f g (x ∷ xs) (e, es) = cc (e, map-eq_of_All f g xs es)

abbrev pub contains : ℕ → List ℕ → Bool
contains a [] = false
contains a (x ∷ xs) = x == a || contains a xs

-- The kept elements, which pass the test.
module _ {ℓ κ μ} {A : Type ℓ} (p : A → Bool) (P : A → Type κ) (Q : A → Type μ) where
  pub All-keep : ((x : A) → p x ≡ true → P x → Q x) → (xs : List A) → All P xs → All Q (keep p xs)
  All-keep h [] _ = tt
  All-keep h (x ∷ xs) (k, ks) = elim (Bool-cases (p x)) [
    | inl e ↦ rw e (h x e k, All-keep h xs ks)
    | inr e ↦ rw e (All-keep h xs ks)
  ]

module _ {ℓ κ μ} {A : Type ℓ} (p : A → Bool) (R : A → A → Type κ) (S : A → A → Type μ) where
  pub Pairs-keep :
      ((x y : A) → p x ≡ true → p y ≡ true → R x y → S x y)
      → (xs : List A) → Pairs R xs
      → Pairs S (keep p xs)
  Pairs-keep h [] _ = tt
  Pairs-keep h (x ∷ xs) (k, ks) = elim (Bool-cases (p x)) [
    | inl e ↦ rw e (All-keep p (R x) (S x) (λ y. h x y e) xs k, Pairs-keep h xs ks)
    | inr e ↦ rw e (Pairs-keep h xs ks)
  ]

pub length-map {ℓ κ} :
    {A : Type ℓ} {B : Type κ} (f : A → B) (xs : List A) → length (map f xs) ≡ length xs
length-map f [] = refl
length-map f (x ∷ xs) = ap suc (length-map f xs)

module _ {ℓ κ μ} {A : Type ℓ} (R : A → A → Type κ) (S : A → A → Type μ) where
  All-both : (x : A) (xs : List A) → All (R x) xs → All (S x) xs → All (λ y. R x y × S x y) xs
  All-both x [] _ _ = tt
  All-both x (y ∷ ys) (r, rs) (s, ss) = ((r, s), All-both x ys rs ss)

  pub Pairs-both : (xs : List A) → Pairs R xs → Pairs S xs → Pairs (λ x y. R x y × S x y) xs
  Pairs-both [] _ _ = tt
  Pairs-both (x ∷ xs) (r, rs) (s, ss) = (All-both x xs r s, Pairs-both xs rs ss)

module _ {ℓ κ μ} {A : Type ℓ} (R : A → A → Type κ) (S : A → A → Type μ) where
  pub Pairs-weaken : ((x y : A) → R x y → S x y) → (xs : List A) → Pairs R xs → Pairs S xs
  Pairs-weaken h [] _ = tt
  Pairs-weaken h (x ∷ xs) (r, rs) = (All-imp (R x) (S x) (h x) xs r, Pairs-weaken h xs rs)

module _ {ℓ κ μ} {A : Type ℓ} {B : Type κ} (P : B → Type μ) (f : A → B) where
  pub All-unmap : (xs : List A) → All P (map f xs) → All (λ a. P (f a)) xs
  All-unmap [] _ = tt
  All-unmap (x ∷ xs) (p, ps) = (p, All-unmap xs ps)

module _ {ℓ κ} {A : Type ℓ} (P : A → Type κ) where
  pub All-find : (q : A → Bool) (xs : List A) {a : A} → All P xs → find q xs ≡ some a → P a
  All-find q [] _ e = absurd (cc)
  All-find q (x ∷ xs) (p, ps) e = elim (Bool-cases (q x)) [
    | inl k ↦ subst P (ground (arith)) p
    | inr k ↦ All-find q xs ps (ground arith)
  ]

module _ {ℓ} {A : Type ℓ} (q : A → Bool) (x : A) (xs : List A) {a : A} where
  pub find_here : q x ≡ true → find q (x ∷ xs) ≡ some a → x ≡ a
  find_here k e = ground arith

  pub find_later : q x ≡ false → find q (x ∷ xs) ≡ some a → find q xs ≡ some a
  find_later k e = ground arith

pub Pairs-snoc {ℓ κ} :
    {A : Type ℓ} (R : A → A → Type κ) (xs : List A) (y : A)
    → Pairs R xs
    → All (λ x. R x y) xs
    → Pairs R (xs ++ y ∷ [])
Pairs-snoc R [] y _ _ = (tt, tt)
Pairs-snoc R (x ∷ xs) y (h, hs) (k, ks) =
    (All-append (R x) xs (y ∷ []) h (k, tt), Pairs-snoc R xs y hs ks)

module _ {ℓ} {A : Type ℓ} (p : A → Bool) (x : A) where
  pub find-snoc :
      (xs : List A) → All (λ y. p y ≡ false) xs → p x ≡ true → find p (xs ++ x ∷ []) ≡ some x
  find-snoc [] _ h = rw h refl
  find-snoc (y ∷ ys) (e, es) h = rw e (find-snoc ys es h)

  pub keep-snoc :
      (xs : List A) → All (λ y. p y ≡ true) xs → p x ≡ false → keep p (xs ++ x ∷ []) ≡ xs
  keep-snoc [] _ h = rw h refl
  keep-snoc (y ∷ ys) (e, es) h = rw e (ap (λ zs. y ∷ zs) (keep-snoc ys es h))
