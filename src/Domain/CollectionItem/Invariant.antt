-- ===== src/Domain/CollectionItem/Invariant.antt =====
-- Renumbering keeps the unique indexes and the range of the numbers.
use lied.Prelude.{
  ℕ, suc, ◌≤◌, ◌≡◌, ◌≢◌, sym, ◌∙◌, true, false, some, List, map, inl, inr, length, All, All-imp,
  All-map, Pairs-imp, Pairs-map, arith, Bool-cases, contains, Distinct, Within, position_of,
  position_of-contains, position_of-injective, position_of-lt-length,
}
use lied.Prelude.Int.{pos, ◌≤ℤ◌}
use lied.Sql.{collides}
use lied.Domain.CollectionItem.{
  CollectionItem, Table, indexes, max_index, is_live_in, live_ids_in_order,
}
use lied.Domain.CollectionItem.Placement.{IsConsistent, IsInRange}
use lied.Domain.CollectionItem.Renumber.{live_ids, Covers, renumbered}
use lied.Domain.CollectionItem.Order.{
  renumbered_live, IsDense, live_ids_in_order-renumbered, renumbered-IsDense,
}

-- The live pieces of the collection are `ids`, in this running order, and are numbered 1, 2, …
-- without a gap; the unique indexes hold and the numbers are usable.
pub record HasOrder (c : ℕ) (ids : List ℕ) (rows : Table) : Type 0 where
  pub order : live_ids_in_order c rows ≡ ids
  pub dense : IsDense c rows
  pub consistent : IsConsistent rows
  pub in_range : All (IsInRange c) rows

module _ (now c : ℕ) (ids : List ℕ) where
  abbrev IsCovered : CollectionItem → Type 0
  IsCovered r = is_live_in c r ≡ true → contains r.id ids ≡ true

  renumbered-collides_live :
      (r s : CollectionItem) (i j : ℕ)
      → is_live_in c r ≡ true
      → is_live_in c s ≡ true
      → position_of r.id ids ≡ some i
      → position_of s.id ids ≡ some j
      → i ≢ j
      → collides indexes r s ≡ false
      → collides indexes (renumbered now c ids r) (renumbered now c ids s) ≡ false
  renumbered-collides_live r s i j e f p q ne h = ground arith

  renumbered-collides :
      (r s : CollectionItem)
      → IsCovered r
      → IsCovered s
      → collides indexes r s ≡ false
      → collides indexes (renumbered now c ids r) (renumbered now c ids s) ≡ false
  renumbered-collides r s cr cs h = elim (Bool-cases (is_live_in c r)) [
    | inl e ↦ elim (Bool-cases (is_live_in c s)) [
      | inl f ↦
          let (i, p) = position_of-contains r.id ids (cr e) in
          let (j, q) = position_of-contains s.id ids (cs f) in
          renumbered-collides_live r s i j e f p q
            (λ same. ground (arith, position_of-injective r.id s.id ids i p)) h
      | inr f ↦ ground arith
    ]
    | inr e ↦ ground arith
  ]

  pub renumbered-IsConsistent :
      (rows : Table)
      → IsConsistent rows
      → Covers c ids rows
      → IsConsistent (map (renumbered now c ids) rows)
  renumbered-IsConsistent rows h covers =
      Pairs-map _ (renumbered now c ids) rows
        (Pairs-imp IsCovered _ _ renumbered-collides rows covers h)

  in_range_at :
      (r : CollectionItem) (j : ℕ)
      → is_live_in c r ≡ true
      → position_of r.id ids ≡ some j
      → suc j ≤ max_index
      → (pos 1 ≤ℤ (renumbered now c ids r).index)
        × ((renumbered now c ids r).index ≤ℤ pos max_index)
  in_range_at r j e p lt = ground arith

  renumbered-InRange :
      (r : CollectionItem)
      → length ids ≤ max_index
      → IsCovered r
      → IsInRange c (renumbered now c ids r)
  renumbered-InRange r len covers = λ e.
      let live : is_live_in c r ≡ true = sym (renumbered_live now c ids r) ∙ e in
      let (j, p) = position_of-contains r.id ids (covers live) in
      let lt = position_of-lt-length r.id ids j p in in_range_at r j live p (omega arith)

  pub renumbered-IsInRange :
      (rows : Table)
      → length ids ≤ max_index
      → Covers c ids rows
      → All (IsInRange c) (map (renumbered now c ids) rows)
  renumbered-IsInRange rows len covers =
      All-map (IsInRange c) (renumbered now c ids) rows
        (All-imp _ _ (λ r. renumbered-InRange r len) rows covers)

  pub renumbered-HasOrder :
      (rows : Table)
      → IsConsistent rows
      → Distinct ids
      → length ids ≤ max_index
      → Covers c ids rows
      → Within ids (live_ids c rows)
      → HasOrder c ids (map (renumbered now c ids) rows)
  renumbered-HasOrder rows h d len covers within = record {
    order = live_ids_in_order-renumbered now c ids rows h d covers within;
    dense = renumbered-IsDense now c ids rows h d covers within;
    consistent = renumbered-IsConsistent rows h covers;
    in_range = renumbered-IsInRange rows len covers;
  }
