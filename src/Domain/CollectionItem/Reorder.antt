-- ===== src/Domain/CollectionItem/Reorder.antt =====
-- `reorder` of lied/src/domain/collection_item.rs.
use mathlib.Core.List.{Perm}
use lied.Prelude.{
  ℕ, ◌≡◌, refl, sym, ◌∙◌, ap, true, not, List, [], ◌∷◌, map, inl, inr, ok, err, length, All,
  All-imp, all, keep, arith, Bool-cases, Distinct, Within, contains, Distinct-of_Within,
  All_contains, Within-refl, perm_of_Within, contains_perm, length_perm,
}
use lied.Domain.CollectionItem.{Table, invalid_reorder, is_live_in, is_reordering, reorder}
use lied.Domain.CollectionItem.Placement.{IsConsistent, IsInRange, park-eq-map}
use lied.Domain.CollectionItem.Renumber.{
  live_ids, Distinct-live_ids, length-live_ids, Covers, Covers-live_ids, renumbered,
  assign_order-parked,
}
use lied.Domain.CollectionItem.Order.{renumbered_live}
use lied.Domain.CollectionItem.Invariant.{HasOrder, renumbered-HasOrder}

-- The rows that a transaction on the collection leaves alone.
abbrev pub others : ℕ → Table → Table
others c = keep (λ r. not (is_live_in c r))

pub others-renumbered :
    (now c : ℕ) (ids : List ℕ) (rows : Table)
    → others c (map (renumbered now c ids) rows) ≡ others c rows
others-renumbered now c ids [] = refl
others-renumbered now c ids (r ∷ rows) = elim (Bool-cases (is_live_in c r)) [
  | inl e ↦ rw (renumbered_live now c ids r, e) (others-renumbered now c ids rows)
  | inr e ↦ rw (e, e) (ap (λ t. r ∷ t) (others-renumbered now c ids rows))
]

Within-of_all : (xs ys : List ℕ) → all (λ x. contains x ys) xs ≡ true → Within xs ys
Within-of_all [] ys _ = tt
Within-of_all (x ∷ xs) ys h = (ground arith, Within-of_all xs ys (ground arith))

all_of_Within : (xs ys : List ℕ) → Within xs ys → all (λ x. contains x ys) xs ≡ true
all_of_Within [] ys _ = refl
all_of_Within (x ∷ xs) ys (h, hs) = ground (arith, all_of_Within xs ys hs)

Covers-of_Within :
    (c : ℕ) (ids : List ℕ) (rows : Table) → Within (live_ids c rows) ids → Covers c ids rows
Covers-of_Within c ids rows h =
    All-imp _ _ (λ r k e. All_contains (λ a. contains a ids ≡ true) r.id (live_ids c rows) h (k e))
      rows (Covers-live_ids c rows)

-- What the test of `reorder` establishes.
pub record IsReordering (ordered live : List ℕ) : Type 0 where
  pub distinct : Distinct ordered
  pub fits : length ordered ≡ length live
  pub from_live : Within ordered live
  pub to_live : Within live ordered

pub IsReordering-of_test :
    (ordered live : List ℕ)
    → Distinct live
    → is_reordering ordered live ≡ true
    → IsReordering ordered live
unfolding is_reordering
IsReordering-of_test ordered live d h =
    let to : Within live ordered = Within-of_all live ordered (ground arith) in
    let same : length ordered ≡ length live = ground arith in
    record {
      distinct = Distinct-of_Within ordered live d to (omega arith);
      fits = same;
      from_live = Within-of_all ordered live (ground arith);
      to_live = to;
    }

is_reordering_of_perm :
    (ordered live : List ℕ) → Perm ordered live → is_reordering ordered live ≡ true
unfolding is_reordering
is_reordering_of_perm ordered live p =
    let same = length_perm p in
    let from =
      all_of_Within ordered live
        (All-imp _ _ (λ a k. sym (contains_perm a p) ∙ k) ordered (Within-refl ordered)) in
    let to =
      all_of_Within live ordered
        (All-imp _ _ (λ a k. contains_perm a p ∙ k) live (Within-refl live)) in
    ground arith

module _ (now c : ℕ) (ordered : List ℕ) (rows : Table) (h : IsConsistent rows)
    (range : All (IsInRange c) rows) where
  reorder-eq-map :
      is_reordering ordered (live_ids c rows) ≡ true
      → reorder now c ordered rows ≡ ok (map (renumbered now c ordered) rows)
  unfolding reorder
  reorder-eq-map e =
      let o = IsReordering-of_test ordered (live_ids c rows) (Distinct-live_ids c rows h) e in
      rw (e, park-eq-map c rows h range)
        (assign_order-parked now c ordered rows h range o.distinct
          (omega (arith, length-live_ids c rows h range))
          (Covers-of_Within c ordered rows o.to_live))

  -- Given a permutation of the live pieces, `reorder` succeeds: the running order is the one given,
  -- the numbers down it are 1, 2, … without a gap, the unique indexes hold, and no row changes that
  -- is not live in the collection. This is for every table that keeps its unique indexes and has
  -- the live numbers of the collection in 1 to 999999.
  pub reorder_lem :
      Perm ordered (live_ids c rows)
      → (rows' : Table) × (reorder now c ordered rows ≡ ok rows')
        × HasOrder c ordered rows'
        × (others c rows' ≡ others c rows)
  reorder_lem p =
      let e = is_reordering_of_perm ordered (live_ids c rows) p in
      let o = IsReordering-of_test ordered (live_ids c rows) (Distinct-live_ids c rows h) e in
      (
        map (renumbered now c ordered) rows,
        reorder-eq-map e,
        renumbered-HasOrder now c ordered rows h o.distinct
            (omega (arith, o.fits, length-live_ids c rows h range))
            (Covers-of_Within c ordered rows o.to_live) o.from_live,
        others-renumbered now c ordered rows,
      )

-- Given anything but a permutation of the live pieces, `reorder` fails with `InvalidReorder`, for
-- every table that keeps its unique indexes.
pub reorder_refuses :
    (now c : ℕ) (ordered : List ℕ) (rows : Table)
    → IsConsistent rows
    → ¬ Perm ordered (live_ids c rows)
    → reorder now c ordered rows ≡ err invalid_reorder
unfolding reorder
reorder_refuses now c ordered rows h no_perm =
    elim (Bool-cases (is_reordering ordered (live_ids c rows))) [
      | inl e ↦
          let live = live_ids c rows in
          let o = IsReordering-of_test ordered live (Distinct-live_ids c rows h) e in
          absurd
            (no_perm (perm_of_Within ordered live o.distinct o.from_live (omega (arith, o.fits))))
      | inr e ↦ rw e
    ]
