-- ===== src/Domain/CollectionItem/Renumber.antt =====
-- `renumber` writes 1, 2, … down the order that it is given, and nothing else.
use mathlib.Core.List.{map-map}
use lied.Prelude.{
  ℕ, ◌-◌, ◌≤◌, ◌≡◌, ◌≢◌, ◌∙◌, ap, true, false, List, [], ◌∷◌, map, inl, inr, ok, length, length-map,
  All, All-imp, All-map, Pairs-imp, Pairs-map, All-keep, Pairs-keep, keep, map-eq_of_All,
  if◌then◌else◌, arith, Bool-cases, Distinct, position_of, position_of-contains, length-le_of_below,
  contains, ==_refl,
}
use lied.Prelude.Int.{pos_part}
use lied.Sql.{collides}
use lied.Domain.CollectionItem.{
  CollectionItem, Table, indexes, max_index, index_park_offset, is_live_in, assign_order, renumber,
}
use lied.Domain.CollectionItem.Placement.{
  IsConsistent, IsInRange, up, parked, park-eq-map, IsPlaced, assigned, assign_from-eq-map,
  assigned_of_hidden, assigned_of_live, placed_at,
}

abbrev pub live_ids : ℕ → Table → List ℕ
live_ids c rows = map (λ r. r.id) (keep (is_live_in c) rows)

-- Every live piece of the collection is in the list.
abbrev pub Covers : ℕ → List ℕ → Table → Type 0
Covers c ids = All (λ r. is_live_in c r ≡ true → contains r.id ids ≡ true)

pub Distinct-live_ids : (c : ℕ) (rows : Table) → IsConsistent rows → Distinct (live_ids c rows)
Distinct-live_ids c rows h =
    Pairs-map _ (λ r. r.id) (keep (is_live_in c) rows)
      (Pairs-keep (is_live_in c) _ _ (λ r s _ _ k. ground arith) rows h)

abbrev LiveApart : ℕ → CollectionItem → CollectionItem → Type 0
LiveApart c r s =
    is_live_in c r ≡ true → is_live_in c s ≡ true → pos_part r.index - 1 ≢ pos_part s.index - 1

numbers_apart :
    (c : ℕ) (r s : CollectionItem)
    → IsInRange c r
    → IsInRange c s
    → collides indexes r s ≡ false
    → LiveApart c r s
numbers_apart c r s hr hs h = λ a b. ground (arith, hr a, hs b)

-- A collection has no more live pieces than there are numbers.
pub length-live_ids :
    (c : ℕ) (rows : Table)
    → IsConsistent rows
    → All (IsInRange c) rows
    → length (live_ids c rows) ≤ max_index
length-live_ids c rows h range =
    let pieces = keep (is_live_in c) rows in
    let numbers = map (λ (r : CollectionItem). pos_part r.index - 1) pieces in
    omega (
      arith,
      length-map (λ (r : CollectionItem). r.id) pieces,
      length-map (λ (r : CollectionItem). pos_part r.index - 1) pieces,
      length-le_of_below max_index numbers
          (Pairs-map _ (λ (r : CollectionItem). pos_part r.index - 1) pieces
            (Pairs-keep (is_live_in c) _ _ (λ r s a b k. k a b) rows
              (Pairs-imp (IsInRange c) _ (LiveApart c) (numbers_apart c) rows range h)))
          (All-map _ (λ (r : CollectionItem). pos_part r.index - 1) pieces
            (All-keep (is_live_in c) (IsInRange c) _ (λ r e k. ground (arith, k e)) rows range)),
    )

contains-live_ids_cons :
    (c id : ℕ) (r : CollectionItem) (rows : Table)
    → contains id (live_ids c rows) ≡ true
    → contains id (live_ids c (r ∷ rows)) ≡ true
contains-live_ids_cons c id r rows h = ground arith

pub Covers-live_ids : (c : ℕ) (rows : Table) → Covers c (live_ids c rows) rows
Covers-live_ids c [] = tt
Covers-live_ids c (r ∷ rows) = (
  λ e. ground (arith, ==_refl r.id),
  All-imp _ _ (λ s k e. contains-live_ids_cons c s.id r rows (k e)) rows (Covers-live_ids c rows),
)

parked-collides :
    (c : ℕ) (r s : CollectionItem)
    → IsInRange c r
    → IsInRange c s
    → collides indexes r s ≡ false
    → collides indexes (parked c r) (parked c s) ≡ false
parked-collides c r s hr hs h = ground arith

parked-IsPlaced : (c : ℕ) (r : CollectionItem) → IsInRange c r → IsPlaced c 0 (parked c r)
parked-IsPlaced c r h = λ e. inr (ground arith)

module _ (now c : ℕ) where
  -- A live piece of the collection has the number of its place in `ids`.
  abbrev pub renumbered : List ℕ → CollectionItem → CollectionItem
  renumbered ids r = if is_live_in c r then placed_at now 0 r (position_of r.id ids) else r

  assigned-parked :
      (ids : List ℕ) (r : CollectionItem)
      → Distinct ids
      → (is_live_in c r ≡ true → contains r.id ids ≡ true)
      → assigned now c 0 ids (parked c r) ≡ renumbered ids r
  assigned-parked ids r d covers = elim (Bool-cases (is_live_in c r)) [
    | inl e ↦
        let (j, at_j) = position_of-contains r.id ids (covers e) in
        rw e (assigned_of_live now c 0 ids (up c r) d e ∙ rw at_j)
    | inr e ↦ rw e (assigned_of_hidden now c 0 ids r e)
  ]

  pub assign_order-parked :
      (ids : List ℕ) (rows : Table)
      → IsConsistent rows
      → All (IsInRange c) rows
      → Distinct ids
      → length ids ≤ index_park_offset
      → Covers c ids rows
      → assign_order now c ids (map (parked c) rows) ≡ ok (map (renumbered ids) rows)
  unfolding assign_order
  assign_order-parked ids rows h range d len covers =
      assign_from-eq-map now c 0 ids (map (parked c) rows) (omega arith)
        (Pairs-map _ (parked c) rows (Pairs-imp (IsInRange c) _ _ (parked-collides c) rows range h))
        (All-map _ (parked c) rows (All-imp (IsInRange c) _ (parked-IsPlaced c) rows range))
      ∙ ap ok (
          map-map _ _ rows
          ∙ map-eq_of_All _ (renumbered ids) rows
              (All-imp _ _ (λ r k. assigned-parked ids r d k) rows covers))

  pub renumber-eq-map :
      (ids : List ℕ) (rows : Table)
      → IsConsistent rows
      → All (IsInRange c) rows
      → Distinct ids
      → length ids ≤ index_park_offset
      → Covers c ids rows
      → renumber now c ids rows ≡ ok (map (renumbered ids) rows)
  unfolding renumber
  renumber-eq-map ids rows h range d len covers =
      rw (park-eq-map c rows h range) (assign_order-parked ids rows h range d len covers)
