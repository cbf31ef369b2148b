-- ===== src/Sql/Update.antt =====
-- When an `UPDATE` meets no unique index it is the map of what it writes.
use mathlib.Core.List.{append-nil, append_assoc}
use lied.Prelude.{
  ◌≡◌, refl, ◌∙◌, ap, Bool, true, false, none, List, [], ◌∷◌, ◌++◌, map, inl, inr, Result, ok, any,
  All, All-append, All-imp, All-intro, Pairs, Bool-cases, if◌then◌else◌, arith,
}
use lied.Sql.{Unique, collides, violation, update_from, update}

module _ {ℓ κ} {R : Type ℓ} {E : Type κ} where
  any-eq-false :
      (us : List (Unique R E)) (u : Unique R E) (new : R) (rows : List R)
      → All (λ r. collides (u ∷ us) new r ≡ false) rows
      → (any (u.meets new) rows ≡ false) × All (λ r. collides us new r ≡ false) rows
  any-eq-false us u new [] _ = (refl, tt)
  any-eq-false us u new (r ∷ rows) (h, hs) =
      let (a, b) = any-eq-false us u new rows hs in ground arith

  collides_step :
      (us : List (Unique R E)) (u : Unique R E) (new : R) (rows : List R)
      → any (u.meets new) rows ≡ false
      → All (λ r. collides us new r ≡ false) rows
      → All (λ r. collides (u ∷ us) new r ≡ false) rows
  collides_step us u new [] _ _ = tt
  collides_step us u new (r ∷ rows) h (k, ks) =
      (ground arith, collides_step us u new rows (ground arith) ks)

  pub violation-eq-none :
      (us : List (Unique R E)) (new : R) (rows : List R)
      → All (λ r. collides us new r ≡ false) rows
      → violation us new rows ≡ none
  violation-eq-none [] new rows _ = refl
  violation-eq-none (u ∷ us) new rows h =
      let (a, b) = any-eq-false us u new rows h in rw a (violation-eq-none us new rows b)

  pub collides_of_violation :
      (us : List (Unique R E)) (new : R) (rows : List R)
      → violation us new rows ≡ none
      → All (λ r. collides us new r ≡ false) rows
  collides_of_violation [] new rows _ = All-intro _ (λ r. refl) rows
  collides_of_violation (u ∷ us) new rows h = elim (Bool-cases (any (u.meets new) rows)) [
    | inl e ↦ let h' = rw e at h in absurd (cc)
    | inr e ↦ collides_step us u new rows e (collides_of_violation us new rows (rw e at h))
  ]

-- `p` selects, `f` computes a row and `g` is what it computes.
module _ {ℓ κ} {R : Type ℓ} {E : Type κ} (indexes : List (Unique R E)) (p : R → Bool)
    (f : R → Result E R) (g : R → R) where
  abbrev pub written : R → R
  written r = if p r then g r else r

  -- `f` does not fail on a selected row.
  abbrev pub Computes : R → Type (ℓ ⊔ κ)
  Computes r = p r ≡ true → f r ≡ ok (g r)

  -- What is written for `s` does not clash with `r`.
  abbrev pub Free : R → R → Type 0
  Free r s = p s ≡ true → collides indexes (g s) r ≡ false

  -- `r` stands before `s`: it is written against the old `s`, and `s` against the new `r`.
  abbrev pub Apart : R → R → Type 0
  Apart r s = Free s r × Free (written r) s

  -- No row still to come clashes with `a`.
  abbrev pub Clear : List R → R → Type 0
  Clear rows a = All (Free a) rows

  Free-of_past :
      (r : R) (past rows : List R)
      → p r ≡ true
      → All (Clear (r ∷ rows)) past
      → All (λ s. Free s r) rows
      → violation indexes (g r) (past ++ rows) ≡ none
  Free-of_past r past rows e hp hr = violation-eq-none indexes (g r) (past ++ rows) (
      All-append (λ a. collides indexes (g r) a ≡ false) past rows
        (All-imp (Clear (r ∷ rows)) _ (λ a h. h.0 e) past hp)
        (All-imp (λ s. Free s r) _ (λ s h. h e) rows hr))

  Clear-snoc :
      (r : R) (past rows : List R)
      → All (Clear (r ∷ rows)) past
      → All (Apart r) rows
      → All (Clear rows) (past ++ written r ∷ [])
  Clear-snoc r past rows hp hr =
      All-append (Clear rows) past (written r ∷ [])
        (All-imp (Clear (r ∷ rows)) (Clear rows) (λ a h. h.1) past hp)
        (All-imp (Apart r) (Free (written r)) (λ s h. h.1) rows hr, tt)

  update_from-eq-map :
      (past rows : List R)
      → All Computes rows
      → Pairs Apart rows
      → All (Clear rows) past
      → update_from indexes p f past rows ≡ ok (past ++ map written rows)
  unfolding update_from
  update_from-eq-map past [] _ _ _ = rw append-nil
  update_from-eq-map past (r ∷ rows) (c, cs) (h, hs) past_clear =
      let ih =
        update_from-eq-map (past ++ written r ∷ []) rows cs hs
          (Clear-snoc r past rows past_clear h) in
      let shape = append_assoc past (written r ∷ []) (map written rows) in
      elim (Bool-cases (p r)) [
        | inl e ↦
            rw
              (
                e,
                update_from,
                c e,
                Free-of_past r past rows e past_clear
                    (All-imp (Apart r) (λ s. Free s r) (λ s k. k.0) rows h),
              )
              (rw e at (ih ∙ ap ok shape))
        | inr e ↦ rw (e, update_from) (rw e at (ih ∙ ap ok shape))
      ]

  -- An `UPDATE` whose rows stay apart writes `g r` for every selected `r`, and nothing else.
  pub update-eq-map :
      (rows : List R)
      → All Computes rows
      → Pairs Apart rows
      → update indexes p f rows ≡ ok (map written rows)
  unfolding update
  update-eq-map rows c h = update_from-eq-map [] rows c h tt
