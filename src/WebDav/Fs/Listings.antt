-- ===== src/WebDav/Fs/Listings.antt =====
-- lied/src/webdav/fs.rs: a directory lists a name exactly when the place of this name is there.
use lied.Prelude.{
  ◌≡◌, refl, ◌∙◌, ap, Bool, true, false, not, ◌&&◌, ◌||◌, Option, none, some, List, [], ◌∷◌, map,
  inl, inr, ok, err, any, find, keep, All, All-imp, Pairs, Pairs-weaken, arith, Bool-cases,
}
use lied.Prelude.Text.{Text, text_eq, text_eq_refl, text_eq→eq}
use lied.WebDav.Access.Arrangements.{distinct}
use lied.WebDav.Access.Phantoms.{any-ext}
use lied.WebDav.Fs.{FsResult}
use lied.WebDav.Fs.Objects.{LiedDirEntry}

-- The name stands among the entries.
abbrev pub has_entry : Text → List LiedDirEntry → Bool
has_entry name entries = any (λ (e : LiedDirEntry). text_eq e.name name) entries

-- A directory that cannot be listed has no entry.
abbrev pub lists : FsResult (List LiedDirEntry) → Text → Bool
lists (ok entries) name = has_entry name entries
lists (err e) name = false

abbrev pub is_ok {ℓ} : {A : Type ℓ} → FsResult A → Bool
is_ok (ok a) = true
is_ok (err e) = false

module _ {ℓ κ} {A : Type ℓ} {B : Type κ} (f : A → B) (q : B → Bool) where
  pub any-map : (xs : List A) → any q (map f xs) ≡ any (λ x. q (f x)) xs
  any-map [] = refl
  any-map (x ∷ xs) = ap (λ b. q (f x) || b) (any-map xs)

module _ {ℓ} {A : Type ℓ} (p q : A → Bool) where
  pub any-keep : (xs : List A) → any q (keep p xs) ≡ any (λ x. p x && q x) xs
  any-keep [] = refl
  any-keep (x ∷ xs) = elim (Bool-cases (p x)) [
    | inl e ↦ rw e (ap (λ b. q x || b) (any-keep xs))
    | inr e ↦ rw e (any-keep xs)
  ]

pub any-distinct :
    (s : Text) (ss : List Text) → any (λ t. text_eq t s) (distinct ss) ≡ any (λ t. text_eq t s) ss
unfolding distinct
any-distinct s [] = refl
any-distinct s (t ∷ ss) =
    let ih = any-distinct s ss in
    let kept = any-keep (λ u. not (text_eq t u)) (λ u. text_eq u s) (distinct ss) in
    elim (Bool-cases (text_eq t s)) [
      | inl e ↦ rw e refl
      | inr e ↦ rw e (
          kept
          ∙ any-ext _ _ (distinct ss) (λ u. elim (Bool-cases (text_eq t u)) [
            | inr n ↦ rw n refl
            | inl n ↦ let same = text_eq→eq t u n in rw (n, ← same, e) refl
          ])
          ∙ ih)
    ]

-- Whether the first row that satisfies `p` satisfies `q`.
abbrev pub holds_at {ℓ} : {A : Type ℓ} → Option A → (A → Bool) → Bool
holds_at none q = false
holds_at (some a) q = q a

module _ {ℓ} {A : Type ℓ} (p q : A → Bool) where
  any-alone : (xs : List A) → All (λ x. p x ≡ false) xs → any (λ x. p x && q x) xs ≡ false
  any-alone [] _ = refl
  any-alone (x ∷ xs) (e, es) = rw e (any-alone xs es)

  -- At most one row satisfies `p`.
  pub any-find :
      (xs : List A)
      → Pairs (λ x y. p x ≡ true → p y ≡ false) xs
      → any (λ x. p x && q x) xs ≡ holds_at (find p xs) q
  any-find [] _ = refl
  any-find (x ∷ xs) (h, hs) = elim (Bool-cases (p x)) [
    | inr e ↦ rw e (any-find xs hs)
    | inl e ↦
        let others = any-alone xs (All-imp _ _ (λ y k. k e) xs h) in
        elim (Bool-cases (q x)) [ inl k ↦ rw (e, k) refl | inr k ↦ rw (e, k) others ]
  ]

-- Rows with slugs: `live` selects the rows of a parent, and no two of them have one slug.
module _ {ℓ} {R : Type ℓ} (slug : R → Text) (live : R → Bool) where
  abbrev pub HasUniqueSlugs : List R → Type 0
  HasUniqueSlugs = Pairs (λ r s. live r ≡ true → live s ≡ true → text_eq (slug r) (slug s) ≡ false)

  abbrev pub at : Text → R → Bool
  at s r = live r && text_eq (slug r) s

  one_at :
      (s : Text) (rows : List R)
      → HasUniqueSlugs rows
      → Pairs (λ r t. at s r ≡ true → at s t ≡ false) rows
  one_at s rows h =
      Pairs-weaken _ _
        (λ r t k e. elim (Bool-cases (at s t)) [
          | inr n ↦ n
          | inl n ↦
              let l : live r ≡ true = ground arith in
              let m : live t ≡ true = ground arith in
              let d = k l m in
              let a = text_eq→eq (slug r) s (ground arith) in
              let b = text_eq→eq (slug t) s (ground arith) in
              let d' = rw (a, b, text_eq_refl s) at d in absurd (cc)
        ])
        rows h

  -- The names that a query lists, ordered and possibly without repetitions.
  pub any-slugs :
      (q : R → Bool) (s : Text) (rows : List R)
      → HasUniqueSlugs rows
      → any (λ t. text_eq t s) (map slug (keep (λ r. live r && q r) rows))
        ≡ holds_at (find (at s) rows) q
  any-slugs q s rows h =
      any-map slug (λ t. text_eq t s) (keep (λ r. live r && q r) rows)
      ∙ any-keep (λ r. live r && q r) (λ r. text_eq (slug r) s) rows
      ∙ any-ext _ _ rows (λ r. ground arith)
      ∙ any-find (at s) q rows (one_at s rows h)
