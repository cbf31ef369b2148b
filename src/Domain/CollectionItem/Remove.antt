-- ===== src/Domain/CollectionItem/Remove.antt =====
-- `remove` of lied/src/domain/collection_item.rs.
use lied.Prelude.{
  ℕ, ◌≡◌, refl, ◌∙◌, ap, subst, Bool, true, false, not, ◌&&◌, List, [], ◌∷◌, map, ok, All, All-imp,
  All-map, All-intro, Pairs-map, Pairs-weaken, any, keep, ◌==◌, if◌then◌else◌, arith,
}
use lied.Sql.{collides, order_by}
use lied.Sql.OrderBy.{order_by-keep}
use lied.Sql.Update.{Apart, update-eq-map}
use lied.Domain.CollectionItem.{
  CollectionItem, Table, indexes, is_live_in, before, deleted, live_ids_in_order, remove,
}
use lied.Domain.CollectionItem.Placement.{IsConsistent, IsInRange}
use lied.Domain.CollectionItem.Renumber.{length-live_ids, renumbered, renumber-eq-map}
use lied.Domain.CollectionItem.Order.{
  in_order, before_total, before_trans, length-live_ids_in_order, Covers-live_ids_in_order,
  Within-live_ids_in_order, Distinct-live_ids_in_order,
}
use lied.Domain.CollectionItem.Invariant.{HasOrder, renumbered-HasOrder}

module _ (now c id : ℕ) where
  abbrev pub is_target : CollectionItem → Bool
  is_target r = r.id == id && is_live_in c r

  -- The row after the soft delete.
  abbrev pub hidden : CollectionItem → CollectionItem
  hidden r = if is_target r then deleted now r else r

  hidden-Apart :
      (r s : CollectionItem)
      → collides indexes r s ≡ false
      → Apart indexes is_target (λ r. ok (deleted now r)) (deleted now) r s
  hidden-Apart r s h = (λ e. ground arith, λ e. ground arith)

  hidden-IsConsistent : (rows : Table) → IsConsistent rows → IsConsistent (map hidden rows)
  hidden-IsConsistent rows h =
      Pairs-map _ hidden rows (Pairs-weaken _ _ (λ r s k. ground arith) rows h)

  hidden-IsInRange : (rows : Table) → All (IsInRange c) rows → All (IsInRange c) (map hidden rows)
  hidden-IsInRange rows h =
      All-map (IsInRange c) hidden rows
        (All-imp (IsInRange c) _ (λ r k. λ e. ground (arith, k)) rows h)

  keep-hidden :
      (rows : Table)
      → keep (is_live_in c) (map hidden rows)
        ≡ keep (λ r. not (r.id == id)) (keep (is_live_in c) rows)
  keep-hidden [] = refl
  keep-hidden (r ∷ rows) = ground (arith, keep-hidden rows)

  map-keep :
      (rows : Table)
      → map (λ r. r.id) (keep (λ r. not (r.id == id)) rows)
        ≡ keep (λ a. not (a == id)) (map (λ r. r.id) rows)
  map-keep [] = refl
  map-keep (r ∷ rows) = ground (arith, map-keep rows)

  -- Hiding a piece takes it out of the running order.
  live_ids_in_order-hidden :
      (rows : Table)
      → live_ids_in_order c (map hidden rows) ≡ keep (λ a. not (a == id)) (live_ids_in_order c rows)
  unfolding live_ids_in_order
  live_ids_in_order-hidden rows =
      ap (λ t. map (λ (r : CollectionItem). r.id) (order_by before t)) (keep-hidden rows)
      ∙ ap (map (λ (r : CollectionItem). r.id)) (
          order_by-keep before before_total before_trans (λ r. not (r.id == id))
            (keep (is_live_in c) rows))
      ∙ map-keep (in_order c rows)

  abbrev pub order_without : Table → List ℕ
  order_without rows = live_ids_in_order c (map hidden rows)

  -- The table that a removal leaves.
  abbrev pub after_remove : Table → Table
  after_remove rows = map (renumbered now c (order_without rows)) (map hidden rows)

  module _ (rows : Table) (h : IsConsistent rows) (range : All (IsInRange c) rows) where
    pub remove-eq-map :
        any is_target rows ≡ true → remove now c id rows ≡ ok (true, after_remove rows)
    unfolding remove
    remove-eq-map found =
        let gone = hidden-IsConsistent rows h in
        let low = hidden-IsInRange rows range in
        rw (
          found,
          update-eq-map indexes is_target (λ r. ok (deleted now r)) (deleted now) rows
              (All-intro _ (λ r _. refl) rows) (Pairs-weaken _ _ hidden-Apart rows h),
          renumber-eq-map now c (order_without rows) (map hidden rows) gone low
              (Distinct-live_ids_in_order c (map hidden rows) gone)
              (omega (
                arith,
                length-live_ids_in_order c (map hidden rows),
                length-live_ids c (map hidden rows) gone low,
              ))
              (Covers-live_ids_in_order c (map hidden rows)),
        )

  -- What a removal of the piece leaves alone: the other pieces that are not live in the collection.
  abbrev pub bystanders : Table → Table
  bystanders = keep (λ r. not (is_live_in c r) && not (r.id == id))

  bystanders-after_remove :
      (ids : List ℕ) (rows : Table)
      → bystanders (map (renumbered now c ids) (map hidden rows)) ≡ bystanders rows
  bystanders-after_remove ids [] = refl
  bystanders-after_remove ids (r ∷ rows) = ground (arith, bystanders-after_remove ids rows)

-- Removing a live piece takes it out of the running order and keeps the order of the others, which
-- are then numbered 1, 2, … without a gap, with the unique indexes kept; rows that are neither the
-- piece nor live in the collection do not change. This is for every table that keeps its unique
-- indexes and has the live numbers of the collection in 1 to 999999.
pub remove_lem :
    (now c id : ℕ) (rows : Table)
    → IsConsistent rows
    → All (IsInRange c) rows
    → any (is_target now c id) rows ≡ true
    → (rows' : Table) × (remove now c id rows ≡ ok (true, rows'))
      × HasOrder c (keep (λ a. not (a == id)) (live_ids_in_order c rows)) rows'
      × (bystanders now c id rows' ≡ bystanders now c id rows)
remove_lem now c id rows h range found =
    let order = order_without now c id rows in
    let gone = map (hidden now c id) rows in
    let ok_gone = hidden-IsConsistent now c id rows h in
    let low = hidden-IsInRange now c id rows range in
    (
      after_remove now c id rows,
      remove-eq-map now c id rows h range found,
      subst (λ ids. HasOrder c ids (after_remove now c id rows))
          (live_ids_in_order-hidden now c id rows)
          (renumbered-HasOrder now c order gone ok_gone (Distinct-live_ids_in_order c gone ok_gone)
            (omega (arith, length-live_ids_in_order c gone, length-live_ids c gone ok_gone low))
            (Covers-live_ids_in_order c gone) (Within-live_ids_in_order c gone)),
      bystanders-after_remove now c id order rows,
    )
