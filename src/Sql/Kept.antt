-- ===== src/Sql/Kept.antt =====
-- What an `INSERT` or an `UPDATE` that succeeds leaves: no two rows meet an index.
use mathlib.Core.List.{append-nil, append_assoc}
use lied.Prelude.{
  ◌≡◌, subst, sym, Bool, false, List, [], ◌∷◌, ◌++◌, inl, inr, Result, ok, All, All-imp, Pairs,
  Pairs-snoc, Bool-cases, Result-cases, Option-cases,
}
use lied.Sql.{Unique, collides, violation, update_from, update, insert}
use lied.Sql.Update.{collides_of_violation}

module _ {ℓ κ} {A : Type ℓ} (R : A → A → Type κ) where
  All-drop : (a x : A) (xs ys : List A) → All (R a) (xs ++ x ∷ ys) → All (R a) (xs ++ ys)
  All-drop a x [] ys (_, h) = h
  All-drop a x (y ∷ xs) ys (k, h) = (k, All-drop a x xs ys h)

  Pairs-drop : (x : A) (xs ys : List A) → Pairs R (xs ++ x ∷ ys) → Pairs R (xs ++ ys)
  Pairs-drop x [] ys (_, h) = h
  Pairs-drop x (y ∷ xs) ys (k, h) = (All-drop y x xs ys k, Pairs-drop x xs ys h)

  All-put : (a x : A) (xs ys : List A) → R a x → All (R a) (xs ++ ys) → All (R a) (xs ++ x ∷ ys)
  All-put a x [] ys r h = (r, h)
  All-put a x (y ∷ xs) ys r (k, h) = (k, All-put a x xs ys r h)

  Pairs-put :
      ((a b : A) → R a b → R b a)
      → (x : A) (xs ys : List A) → All (R x) (xs ++ ys)
      → Pairs R (xs ++ ys)
      → Pairs R (xs ++ x ∷ ys)
  Pairs-put flip x [] ys h k = (h, k)
  Pairs-put flip x (y ∷ xs) ys (r, h) (k, ks) =
      (All-put y x xs ys (flip x y r) k, Pairs-put flip x xs ys h ks)

module _ {ℓ κ} {R : Type ℓ} {E : Type κ} (indexes : List (Unique R E))
    (flip : (r s : R) → collides indexes r s ≡ false → collides indexes s r ≡ false) where
  abbrev pub AreApart : R → R → Type 0
  AreApart r s = collides indexes r s ≡ false

  update_from-Pairs :
      (p : R → Bool) (f : R → Result E R) (past rows : List R) {out : List R}
      → Pairs AreApart (past ++ rows)
      → update_from indexes p f past rows ≡ ok out
      → Pairs AreApart out
  unfolding update_from
  update_from-Pairs p f past [] {out} h e =
      let same : past ≡ out = cc in
      subst (Pairs AreApart) same (subst (Pairs AreApart) (append-nil past) h)
  update_from-Pairs p f past (r ∷ rows) h e = elim (Bool-cases (p r)) [
    | inr k ↦
        update_from-Pairs p f (past ++ r ∷ []) rows
          (subst (Pairs AreApart) (sym (append_assoc past (r ∷ []) rows)) h)
          (rw (k, update_from) at e)
    | inl k ↦ elim (Result-cases (f r)) [
      | inr (x, q) ↦ let e' = rw (k, update_from, q) at e in absurd (cc)
      | inl (new, q) ↦ elim (Option-cases (violation indexes new (past ++ rows))) [
        | inr (x, v) ↦ let e' = rw (k, update_from, q, v) at e in absurd (cc)
        | inl v ↦
            update_from-Pairs p f (past ++ new ∷ []) rows
              (subst (Pairs AreApart) (sym (append_assoc past (new ∷ []) rows)) (
                Pairs-put AreApart flip new past rows
                  (collides_of_violation indexes new (past ++ rows) v)
                  (Pairs-drop AreApart r past rows h)))
              (rw (k, update_from, q, v) at e)
      ]
    ]
  ]

  pub update-Pairs :
      (p : R → Bool) (f : R → Result E R) (rows : List R) {out : List R}
      → Pairs AreApart rows
      → update indexes p f rows ≡ ok out
      → Pairs AreApart out
  unfolding update
  update-Pairs p f rows h e = update_from-Pairs p f [] rows h e

  pub insert-Pairs :
      (new : R) (rows : List R) {out : List R}
      → Pairs AreApart rows
      → insert indexes new rows ≡ ok out
      → (Pairs AreApart out) × (rows ++ new ∷ [] ≡ out) × All (AreApart new) rows
  unfolding insert
  insert-Pairs new rows {out} h e = elim (Option-cases (violation indexes new rows)) [
    | inr (x, v) ↦ let e' = rw v at e in absurd (cc)
    | inl v ↦
        let free = collides_of_violation indexes new rows v in
        let same : rows ++ new ∷ [] ≡ out = (let e' = rw v at e in cc) in
        (
          subst (Pairs AreApart) same
              (Pairs-snoc AreApart rows new h (All-imp _ _ (λ r. flip new r) rows free)),
          same,
          free,
        )
  ]
