-- ===== src/Domain/CollectionItem/Restore.antt =====
-- `restore` of lied/src/domain/collection_item.rs.
use lied.Prelude.{
  min, ◌-◌, ℕ, zero, suc, ◌≤◌, ◌≡◌, ◌≢◌, ◌↔◌, refl, sym, ◌∙◌, ap, subst, ◌<◌, true, false, ◌&&◌,
  ◌||◌, some, List, [], ◌∷◌, map, inl, inr, ok, err, length, All, All-imp, All-map, any, find,
  All-unmap, Within-refl, ◌==◌, arith, Bool-cases, Distinct, contains, All-of_not_contains,
}
use lied.Prelude.Int.{ℤ, pos_part}
use lied.Domain.CollectionItem.{
  CollectionItem, Table, max_index, is_live_in, insert_at, live_ids_in_order, restore_position,
  restore_target, restore, duplicate_arrangement,
}
use lied.Domain.CollectionItem.Placement.{IsConsistent, IsInRange, park-eq-map}
use lied.Domain.CollectionItem.Renumber.{live_ids, length-live_ids, Covers-live_ids, renumbered}
use lied.Domain.CollectionItem.Order.{
  contains-live_ids_in_order, length-live_ids_in_order, Distinct-live_ids_in_order,
}
use lied.Domain.CollectionItem.Invariant.{HasOrder, renumbered-HasOrder}
use lied.Domain.CollectionItem.Remove.{bystanders}
use lied.Domain.CollectionItem.Lookup.{is_removed, any_of_find, id_of_find, IsReady-of_find}
use lied.Domain.CollectionItem.Revive.{
  IsReady, shown, revive-eq-map, shown-IsConsistent, assign_order-shown,
}

contains-insert_at : (a k x : ℕ) (xs : List ℕ) → contains a (insert_at k x xs) ≡ contains a (x ∷ xs)
contains-insert_at a zero x xs = refl
contains-insert_at a (suc k) x [] = refl
contains-insert_at a (suc k) x (y ∷ xs) = ground (arith, contains-insert_at a k x xs)

length-insert_at : (k x : ℕ) (xs : List ℕ) → length (insert_at k x xs) ≡ suc (length xs)
length-insert_at zero x xs = refl
length-insert_at (suc k) x [] = refl
length-insert_at (suc k) x (y ∷ xs) = ap suc (length-insert_at k x xs)

All-insert_at {ℓ} :
    (P : ℕ → Type ℓ) (k x : ℕ) (xs : List ℕ) → P x → All P xs → All P (insert_at k x xs)
All-insert_at P zero x xs p ps = (p, ps)
All-insert_at P (suc k) x [] p ps = (p, tt)
All-insert_at P (suc k) x (y ∷ xs) p (q, ps) = (q, All-insert_at P k x xs p ps)

Distinct-insert_at :
    (k x : ℕ) (xs : List ℕ) → All (λ y. x ≢ y) xs → Distinct xs → Distinct (insert_at k x xs)
Distinct-insert_at zero x xs n d = (n, d)
Distinct-insert_at (suc k) x [] n d = (tt, tt)
Distinct-insert_at (suc k) x (y ∷ xs) (n, ns) (d, ds) =
    (All-insert_at (λ z. y ≢ z) k x xs (λ e. n (sym e)) d, Distinct-insert_at k x xs ns ds)

module _ (now c : ℕ) (t : CollectionItem) where
  abbrev Ready : Table → Type 0
  Ready = All (IsReady now c t)

  not_live : (rows : Table) → Ready rows → contains t.id (live_ids c rows) ≡ false
  not_live [] _ = refl
  not_live (r ∷ rows) (h, hs) = ground (arith, h.target, not_live rows hs)

  -- The live pieces after the revival.
  contains-live_ids-shown :
      (a : ℕ) (rows : Table)
      → Ready rows
      → contains a (live_ids c (map (shown now c t) rows))
        ≡ (contains a (live_ids c rows) || (t.id == a && any (λ r. r.id == t.id) rows))
  contains-live_ids-shown a [] _ = ground arith
  contains-live_ids-shown a (r ∷ rows) (h, hs) =
      ground (arith, h.target, contains-live_ids-shown a rows hs)

  abbrev pub restored_order : Table → List ℕ
  restored_order rows =
      let live = live_ids_in_order c rows in
      insert_at (restore_position t.index (length live)) t.id live

  abbrev pub after_restore : Table → Table
  after_restore rows = map (renumbered now c (restored_order rows)) (map (shown now c t) rows)

  module _ (rows : Table) (h : IsConsistent rows) (range : All (IsInRange c) rows)
      (ready : Ready rows) (present : any (λ r. r.id == t.id) rows ≡ true) where
    contains-restored_order :
        (a : ℕ)
        → contains a (restored_order rows) ≡ contains a (live_ids c (map (shown now c t) rows))
    contains-restored_order a =
        let live = live_ids_in_order c rows in
        contains-insert_at a (restore_position t.index (length live)) t.id live
        ∙ ground (arith, contains-live_ids_in_order c a rows, contains-live_ids-shown a rows ready)

    Distinct-restored_order : Distinct (restored_order rows)
    Distinct-restored_order =
        let live = live_ids_in_order c rows in
        Distinct-insert_at (restore_position t.index (length live)) t.id live
          (All-of_not_contains t.id live
            (contains-live_ids_in_order c t.id rows ∙ not_live rows ready))
          (Distinct-live_ids_in_order c rows h)

    length-restored_order : length (restored_order rows) ≤ suc max_index
    length-restored_order =
        let live = live_ids_in_order c rows in
        omega (
          arith,
          length-insert_at (restore_position t.index (length live)) t.id live,
          length-live_ids_in_order c rows,
          length-live_ids c rows h range,
        )

    Covers-restored_order :
        All
          (λ r.
            is_live_in c (shown now c t r) ≡ true
            → contains (shown now c t r).id (restored_order rows) ≡ true)
          rows
    Covers-restored_order =
        All-imp _ _ (λ r k e. contains-restored_order (shown now c t r).id ∙ k e) rows
          (All-unmap _ (shown now c t) rows (Covers-live_ids c (map (shown now c t) rows)))

    restore_target-eq-map :
        any (λ r. is_live_in c r && r.arrangement_id == t.arrangement_id) rows ≡ false
        → restore_target now c t rows ≡ ok (true, after_restore rows)
    unfolding restore_target
    restore_target-eq-map no_clash = rw (
      no_clash,
      park-eq-map c rows h range,
      revive-eq-map now c t rows h ready,
      assign_order-shown now c t rows h ready (restored_order rows) Distinct-restored_order
          length-restored_order Covers-restored_order,
    )

    after_restore-HasOrder :
        length (live_ids c rows) < max_index → HasOrder c (restored_order rows) (after_restore rows)
    after_restore-HasOrder room =
        let order = restored_order rows in
        let back = map (shown now c t) rows in
        let live = live_ids_in_order c rows in
        renumbered-HasOrder now c order back (shown-IsConsistent now c t rows h ready)
          Distinct-restored_order
          (omega (
            arith,
            length-insert_at (restore_position t.index (length live)) t.id live,
            length-live_ids_in_order c rows,
          ))
          (All-map _ (shown now c t) rows Covers-restored_order)
          (All-imp _ _ (λ a k. sym (contains-restored_order a) ∙ k) order (Within-refl order))

module _ (now c id : ℕ) (t : CollectionItem) where
  -- What a restoration leaves alone: the other rows that are not live in the collection.
  bystanders-after_restore :
      (ids : List ℕ) (rows : Table)
      → t.id ≡ id
      → All (IsReady now c t) rows
      → bystanders now c id (map (renumbered now c ids) (map (shown now c t) rows))
        ≡ bystanders now c id rows
  bystanders-after_restore ids [] e _ = refl
  bystanders-after_restore ids (r ∷ rows) e (h, hs) =
      ground (arith, h.target, bystanders-after_restore ids rows e hs)

-- The number of a piece is one more than its position.
restore_position_lem :
    (index : ℤ) (count : ℕ) → restore_position index count ≡ min (pos_part index - 1) count
unfolding restore_position
restore_position_lem index count = omega arith

-- Restoring a removed piece whose arrangement is not in the collection again puts it back at the
-- position of its old number, which is one less, or at the end if there are fewer pieces now, and
-- keeps the order of the others; all are then numbered 1, 2, … without a gap, with the unique
-- indexes kept, and rows that are neither the piece nor live in the collection do not change. This
-- is for every table that keeps its unique indexes, has the live numbers of the collection in 1 to
-- 999999 and not all of those in use.
pub restore_lem :
    (now c id : ℕ) (rows : Table) {t : CollectionItem}
    → IsConsistent rows
    → All (IsInRange c) rows
    → length (live_ids c rows) < max_index
    → find (is_removed c id) rows ≡ some t
    → any (λ r. is_live_in c r && r.arrangement_id == t.arrangement_id) rows ≡ false
    → (rows' : Table) × (restore now c id rows ≡ ok (true, rows'))
      × HasOrder c
          (insert_at
            (min (pos_part t.index - 1) (length (live_ids_in_order c rows)))
            id
            (live_ids_in_order c rows))
          rows'
      × (bystanders now c id rows' ≡ bystanders now c id rows)
unfolding restore
restore_lem now c id rows {t} h range room found free =
    let ready = IsReady-of_find now c id rows t h range found free in
    let present = any_of_find c id rows t found in
    let same : t.id ≡ id = id_of_find c id rows t found in
    let live = live_ids_in_order c rows in
    let ordered =
      subst
        (λ a.
          HasOrder c (insert_at (restore_position t.index (length live)) a live)
            (after_restore now c t rows))
        same (after_restore-HasOrder now c t rows h range ready present room) in
    (
      after_restore now c t rows,
      rw (found, restore) (restore_target-eq-map now c t rows h range ready present free),
      subst (λ k. HasOrder c (insert_at k id live) (after_restore now c t rows))
          (restore_position_lem t.index (length live)) ordered,
      bystanders-after_restore now c id t (restored_order now c t rows) rows same ready,
    )

-- Restoring refuses with `DuplicateArrangement` exactly when the removed piece's arrangement is
-- live in the collection again; this is for every table that keeps its unique indexes, has the live
-- numbers of the collection in 1 to 999999 and not all of those in use.
pub restore_refuses :
    (now c id : ℕ) (rows : Table) {t : CollectionItem}
    → IsConsistent rows
    → All (IsInRange c) rows
    → length (live_ids c rows) < max_index
    → find (is_removed c id) rows ≡ some t
    → (restore now c id rows ≡ err duplicate_arrangement)
      ↔ (any (λ r. is_live_in c r && r.arrangement_id == t.arrangement_id) rows ≡ true)
unfolding restore restore_target
restore_refuses now c id rows {t} h range room found =
    let clash = any (λ r. is_live_in c r && r.arrangement_id == t.arrangement_id) rows in
    (
      λ refused. elim (Bool-cases clash) [
        | inl e ↦ e
        | inr e ↦ let done = (restore_lem now c id rows h range room found e).1 in cc
      ],
      λ e. rw (found, restore, e),
    )
