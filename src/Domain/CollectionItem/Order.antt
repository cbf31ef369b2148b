-- ===== src/Domain/CollectionItem/Order.antt =====
-- The running order of a collection, and what renumbering makes of it.
use mathlib.Core.List.{map-map}
use lied.Prelude.{
  ℕ, suc, ◌+◌, ◌≡◌, ◌≢◌, refl, sym, ◌∙◌, ap, true, false, none, some, List, [], ◌∷◌, map, length,
  length-map, All, All-imp, All-map, All-intro, Pairs, Pairs-imp, Pairs-map, Pairs-both, All-keep,
  Pairs-keep, keep, map-eq_of_All, arith, Distinct, Within, Within-refl, contains, position_of,
  position_of-contains, position_of-injective, Precedes, Distinct-Precedes, eq_of_Precedes,
  contains_of_position_of,
}
use lied.Prelude.Int.{ℤ, pos}
use lied.Sql.{order_by}
use lied.Sql.OrderBy.{
  All-order_by, Pairs-order_by, contains-order_by, length-order_by, order_by-IsSorted,
}
use lied.Domain.CollectionItem.{CollectionItem, Table, is_live_in, before, live_ids_in_order}
use lied.Domain.CollectionItem.Placement.{IsConsistent}
use lied.Domain.CollectionItem.Renumber.{live_ids, Covers, Covers-live_ids, renumbered}

abbrev pub in_order : ℕ → Table → Table
in_order c rows = order_by before (keep (is_live_in c) rows)

-- 1, 2, … down a list that `k` numbers stand before.
abbrev pub numbers : ℕ → List ℕ → List ℤ
numbers k [] = []
numbers k (x ∷ xs) = pos (suc k) ∷ numbers (suc k) xs

-- The live pieces of the collection are numbered 1, 2, … without a gap.
abbrev pub IsDense : ℕ → Table → Type 0
IsDense c rows = map (λ r. r.index) (in_order c rows) ≡ numbers 0 (live_ids_in_order c rows)

abbrev number_from : ℕ → List ℕ → ℕ → ℤ
number_from k ids a = elim (position_of a ids) [ none ↦ pos 0 | some j ↦ pos (suc (k + j)) ]

number_from-cons :
    (k x : ℕ) (xs : List ℕ) (a : ℕ)
    → x ≢ a
    → contains a xs ≡ true
    → number_from k (x ∷ xs) a ≡ number_from (suc k) xs a
number_from-cons k x xs a ne h = let (j, p) = position_of-contains a xs h in ground arith

number_from-cons-All :
    (k x : ℕ) (xs ys : List ℕ)
    → All (λ y. x ≢ y) ys
    → Within ys xs
    → All (λ a. number_from k (x ∷ xs) a ≡ number_from (suc k) xs a) ys
number_from-cons-All k x xs [] _ _ = tt
number_from-cons-All k x xs (y ∷ ys) (n, ns) (h, hs) =
    (number_from-cons k x xs y n h, number_from-cons-All k x xs ys ns hs)

map-number_from :
    (k : ℕ) (ids : List ℕ) → Distinct ids → map (number_from k ids) ids ≡ numbers k ids
map-number_from k [] _ = refl
map-number_from k (x ∷ xs) (d, ds) =
    let head : number_from k (x ∷ xs) x ≡ pos (suc k) = ground arith in
    let tail =
      map-eq_of_All (number_from k (x ∷ xs)) (number_from (suc k) xs) xs
        (number_from-cons-All k x xs xs d (Within-refl xs))
      ∙ map-number_from (suc k) xs ds in
    cc

pub before_total : (r s : CollectionItem) → before r s ≡ false → before s r ≡ true
before_total r s h = ground arith

pub before_trans :
    (r s t : CollectionItem) → before r s ≡ true → before s t ≡ true → before r t ≡ true
before_trans r s t h k = ground arith

module _ (c : ℕ) where
  pub contains-live_ids_in_order :
      (a : ℕ) (rows : Table) → contains a (live_ids_in_order c rows) ≡ contains a (live_ids c rows)
  unfolding live_ids_in_order
  contains-live_ids_in_order a rows =
      contains-order_by before (λ r. r.id) a (keep (is_live_in c) rows)

  pub length-live_ids_in_order :
      (rows : Table) → length (live_ids_in_order c rows) ≡ length (live_ids c rows)
  unfolding live_ids_in_order
  length-live_ids_in_order rows =
      length-map (λ (r : CollectionItem). r.id) (in_order c rows)
      ∙ length-order_by before (keep (is_live_in c) rows)
      ∙ sym (length-map (λ (r : CollectionItem). r.id) (keep (is_live_in c) rows))

  ids_differ : (rows : Table) → IsConsistent rows → Pairs (λ r s. r.id ≢ s.id) (in_order c rows)
  ids_differ rows h =
      Pairs-order_by before (λ r s. r.id ≢ s.id) (λ r s n e. n (sym e)) (keep (is_live_in c) rows)
        (Pairs-keep (is_live_in c) _ _ (λ r s _ _ k. ground arith) rows h)

  pub Distinct-live_ids_in_order :
      (rows : Table) → IsConsistent rows → Distinct (live_ids_in_order c rows)
  unfolding live_ids_in_order
  Distinct-live_ids_in_order rows h = Pairs-map _ (λ r. r.id) (in_order c rows) (ids_differ rows h)

  pub Covers-live_ids_in_order : (rows : Table) → Covers c (live_ids_in_order c rows) rows
  Covers-live_ids_in_order rows =
      All-imp _ _ (λ r k e. contains-live_ids_in_order r.id rows ∙ k e) rows
        (Covers-live_ids c rows)

  pub Within-live_ids_in_order :
      (rows : Table) → Within (live_ids_in_order c rows) (live_ids c rows)
  Within-live_ids_in_order rows =
      All-imp _ _ (λ a k. sym (contains-live_ids_in_order a rows) ∙ k) (live_ids_in_order c rows)
        (Within-refl (live_ids_in_order c rows))

module _ (now c : ℕ) (ids : List ℕ) where
  abbrev placed_rows : Table → Table
  placed_rows = map (renumbered now c ids)

  renumbered_id : (r : CollectionItem) → (renumbered now c ids r).id ≡ r.id
  renumbered_id r = ground arith

  pub renumbered_live :
      (r : CollectionItem) → is_live_in c (renumbered now c ids r) ≡ is_live_in c r
  renumbered_live r = ground arith

  pub live_ids-renumbered : (rows : Table) → live_ids c (placed_rows rows) ≡ live_ids c rows
  live_ids-renumbered [] = refl
  live_ids-renumbered (r ∷ rows) =
      ground (arith, renumbered_id r, renumbered_live r, live_ids-renumbered rows)

  ids_differ-renumbered :
      (rows : Table)
      → IsConsistent rows
      → Pairs (λ r s. r.id ≢ s.id) (in_order c (placed_rows rows))
  ids_differ-renumbered rows h =
      Pairs-order_by before (λ r s. r.id ≢ s.id) (λ r s n e. n (sym e))
        (keep (is_live_in c) (placed_rows rows))
        (Pairs-keep (is_live_in c) (λ r s. r.id ≢ s.id) _ (λ r s _ _ n. n) (placed_rows rows)
          (Pairs-map (λ r s. r.id ≢ s.id) (renumbered now c ids) rows
            (Pairs-imp (λ _. Unit {0}) _ _
              (λ r s _ _ k. ground (arith, renumbered_id r, renumbered_id s)) rows
              (All-intro _ (λ _. tt) rows) h)))

  -- A row at its place in `ids`, with the number of that place.
  abbrev HasNumber : CollectionItem → Type 0
  HasNumber r = (i : ℕ) × (position_of r.id ids ≡ some i) × (r.index ≡ pos (suc i))

  abbrev Live : CollectionItem → Type 0
  Live r = is_live_in c r ≡ true → HasNumber r

  has_number :
      (r : CollectionItem)
      → (is_live_in c r ≡ true → contains r.id ids ≡ true)
      → is_live_in c (renumbered now c ids r) ≡ true
      → HasNumber (renumbered now c ids r)
  has_number r covers e =
      let live : is_live_in c r ≡ true = sym (renumbered_live r) ∙ e in
      let (j, p) = position_of-contains r.id ids (covers live) in
      (j, ap (λ a. position_of a ids) (renumbered_id r) ∙ p, ground arith)

  HasNumber-renumbered :
      (rows : Table) → Covers c ids rows → All HasNumber (in_order c (placed_rows rows))
  HasNumber-renumbered rows covers =
      All-order_by before HasNumber (keep (is_live_in c) (placed_rows rows)) (
        All-keep (is_live_in c) Live HasNumber (λ r e k. k e) (placed_rows rows)
          (All-map Live (renumbered now c ids) rows (All-imp _ _ has_number rows covers)))

  order_of_numbers :
      (r s : CollectionItem)
      → HasNumber r
      → HasNumber s
      → (r.id ≢ s.id) × (before r s ≡ true)
      → Precedes ids r.id s.id
  order_of_numbers r s (i, p, e) (j, q, f) (ne, b) =
      (i, j, p, q, ground (arith, position_of-injective r.id s.id ids i p))

  sorted_positions :
      (rows : Table)
      → IsConsistent rows
      → Covers c ids rows
      → Pairs (λ r s. Precedes ids r.id s.id) (in_order c (placed_rows rows))
  sorted_positions rows h covers =
      let pieces = keep (is_live_in c) (placed_rows rows) in
      Pairs-imp HasNumber _ _ order_of_numbers (in_order c (placed_rows rows))
        (HasNumber-renumbered rows covers)
        (Pairs-both _ _ (in_order c (placed_rows rows)) (ids_differ-renumbered rows h)
          (order_by-IsSorted before before_total before_trans pieces))

  -- After renumbering the running order is the list that was given.
  pub live_ids_in_order-renumbered :
      (rows : Table)
      → IsConsistent rows
      → Distinct ids
      → Covers c ids rows
      → Within ids (live_ids c rows)
      → live_ids_in_order c (placed_rows rows) ≡ ids
  unfolding live_ids_in_order
  live_ids_in_order-renumbered rows h d covers within =
      eq_of_Precedes ids (live_ids_in_order c (placed_rows rows)) ids
        (Pairs-map (Precedes ids) (λ r. r.id) (in_order c (placed_rows rows))
          (sorted_positions rows h covers))
        (Distinct-Precedes ids d)
        (All-map _ (λ r. r.id) (in_order c (placed_rows rows))
          (All-imp HasNumber _ (λ r n. contains_of_position_of r.id ids n.0 n.1)
            (in_order c (placed_rows rows)) (HasNumber-renumbered rows covers)))
        (All-imp _ _
          (λ a k.
            contains-live_ids_in_order c a (placed_rows rows)
            ∙ ap (contains a) (live_ids-renumbered rows)
            ∙ k)
          ids within)

  HasNumber-from : (r : CollectionItem) → HasNumber r → r.index ≡ number_from 0 ids r.id
  HasNumber-from r (i, p, e) = ground arith

  -- The numbers down that order are 1, 2, ….
  pub renumbered-IsDense :
      (rows : Table)
      → IsConsistent rows
      → Distinct ids
      → Covers c ids rows
      → Within ids (live_ids c rows)
      → IsDense c (placed_rows rows)
  unfolding live_ids_in_order
  renumbered-IsDense rows h d covers within =
      let pieces = in_order c (placed_rows rows) in
      let order = live_ids_in_order-renumbered rows h d covers within in
      map-eq_of_All (λ r. r.index) (λ r. number_from 0 ids r.id) pieces
        (All-imp HasNumber _ HasNumber-from pieces (HasNumber-renumbered rows covers))
      ∙ sym (map-map (number_from 0 ids) (λ (r : CollectionItem). r.id) pieces)
      ∙ ap (map (number_from 0 ids)) order
      ∙ map-number_from 0 ids d
      ∙ ap (numbers 0) (sym order)
