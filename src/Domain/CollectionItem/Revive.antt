-- ===== src/Domain/CollectionItem/Revive.antt =====
-- `restore` of lied/src/domain/collection_item.rs: the statements below its look-up.
use mathlib.Core.List.{map-map}
use lied.Prelude.{
  ℕ, suc, ◌+◌, ◌≤◌, ◌≡◌, refl, sym, ◌∙◌, ap, Bool, true, false, ◌&&◌, List, [], ◌∷◌, map, inl, inr,
  ok, length, All, All-imp, All-map, All-intro, Pairs-imp, Pairs-map, ◌==◌, if◌then◌else◌, arith,
  Bool-cases, Distinct, contains, position_of, position_of-contains, map-eq_of_All,
}
use lied.Prelude.Int.{pos}
use lied.Sql.{collides, update}
use lied.Sql.Update.{Apart, update-eq-map}
use lied.Domain.CollectionItem.{
  CollectionItem, Table, indexes, index_park_offset, is_live, is_live_in, revived, assign_order,
  with_index,
}
use lied.Domain.CollectionItem.Placement.{
  IsConsistent, IsInRange, parked, IsPlaced, assigned, assign_from-eq-map, assigned_of_hidden,
  assigned_of_live, placed_at,
}
use lied.Domain.CollectionItem.Renumber.{renumbered}

module _ (now c : ℕ) (t : CollectionItem) where
  -- What the look-up and the test for a clash establish of every row.
  pub record IsReady (r : CollectionItem) : Type 0 where
    pub in_range : IsInRange c r
    pub target :
        r.id ≡ t.id
        → (r.collection_id ≡ c) × (r.arrangement_id ≡ t.arrangement_id) × (is_live r ≡ false)
    pub no_clash : (is_live_in c r && r.arrangement_id == t.arrangement_id) ≡ false

  abbrev pub is_restored : CollectionItem → Bool
  is_restored r = r.id == t.id

  abbrev pub shown : CollectionItem → CollectionItem
  shown r = if is_restored r then revived now r else r

  shown-Apart :
      (r s : CollectionItem)
      → IsReady r
      → IsReady s
      → collides indexes r s ≡ false
      → Apart indexes is_restored (λ x. ok (revived now x)) (revived now) (parked c r) (parked c s)
  shown-Apart r s hr hs h = (
    λ e. ground (arith, hr.in_range, hr.target, hs.in_range, hs.target),
    λ e. ground (arith, hr.in_range, hr.target, hs.in_range, hs.target),
  )

  shown-collides-parked :
      (r s : CollectionItem)
      → IsReady r
      → IsReady s
      → collides indexes r s ≡ false
      → collides indexes (shown (parked c r)) (shown (parked c s)) ≡ false
  shown-collides-parked r s hr hs h = ground (arith, hr.in_range, hr.target, hs.in_range, hs.target)

  shown-collides :
      (r s : CollectionItem)
      → IsReady r
      → IsReady s
      → collides indexes r s ≡ false
      → collides indexes (shown r) (shown s) ≡ false
  shown-collides r s hr hs h = ground (arith, hr.in_range, hr.target, hs.in_range, hs.target)

  shown-IsPlaced : (r : CollectionItem) → IsReady r → IsPlaced c 0 (shown (parked c r))
  shown-IsPlaced r h = λ e. inr (ground (arith, h.in_range, h.target))

  -- The loop overwrites the number that the row rejoined with.
  assigned-shown :
      (ids : List ℕ) (r : CollectionItem)
      → Distinct ids
      → IsReady r
      → (is_live_in c (shown r) ≡ true → contains (shown r).id ids ≡ true)
      → assigned now c 0 ids (shown (parked c r)) ≡ renumbered now c ids (shown r)
  assigned-shown ids r d h covers = elim (Bool-cases (is_live_in c (shown r))) [
    | inl e ↦
        let (j, p) = position_of-contains (shown r).id ids (covers e) in
        let x = shown (parked c r) in
        let same : x.id ≡ (shown r).id = ground (arith, h.target) in
        let live : is_live_in c x ≡ true = ground (arith, h.target) in
        let again : with_index (pos (suc (0 + j))) now x
            ≡ with_index (pos (suc (0 + j))) now (shown r) =
          ground (arith, h.target) in
        assigned_of_live now c 0 ids x d live
        ∙ ap (placed_at now 0 x) (ap (λ a. position_of a ids) same ∙ p)
        ∙ again
        ∙ sym (rw (e, p))
    | inr e ↦
        let unmoved : shown (parked c r) ≡ shown r = ground (arith, h.target) in
        rw (unmoved, e) (assigned_of_hidden now c 0 ids (shown r) e)
  ]

  pointwise :
      (ids : List ℕ)
      → Distinct ids
      → (rows : Table) → All IsReady rows
      → All (λ r. is_live_in c (shown r) ≡ true → contains (shown r).id ids ≡ true) rows
      → All (λ r. assigned now c 0 ids (shown (parked c r)) ≡ renumbered now c ids (shown r)) rows
  pointwise ids d [] _ _ = tt
  pointwise ids d (r ∷ rows) (h, hs) (k, ks) =
      (assigned-shown ids r d h k, pointwise ids d rows hs ks)

  module _ (rows : Table) (h : IsConsistent rows) (ready : All IsReady rows) where
    pub revive-eq-map :
        update indexes is_restored (λ r. ok (revived now r)) (map (parked c) rows)
        ≡ ok (map shown (map (parked c) rows))
    revive-eq-map =
        update-eq-map indexes is_restored (λ r. ok (revived now r)) (revived now)
          (map (parked c) rows) (All-intro _ (λ r _. refl) (map (parked c) rows))
          (Pairs-map _ (parked c) rows (Pairs-imp IsReady _ _ shown-Apart rows ready h))

    pub shown-IsConsistent : IsConsistent (map shown rows)
    shown-IsConsistent = Pairs-map _ shown rows (Pairs-imp IsReady _ _ shown-collides rows ready h)

    pub assign_order-shown :
        (ids : List ℕ)
        → Distinct ids
        → length ids ≤ index_park_offset
        → All (λ r. is_live_in c (shown r) ≡ true → contains (shown r).id ids ≡ true) rows
        → assign_order now c ids (map shown (map (parked c) rows))
          ≡ ok (map (renumbered now c ids) (map shown rows))
    unfolding assign_order
    assign_order-shown ids d len covers = rw (map-map shown (parked c) rows) (
        assign_from-eq-map now c 0 ids (map (λ r. shown (parked c r)) rows) (omega arith)
          (Pairs-map _ (λ r. shown (parked c r)) rows
            (Pairs-imp IsReady _ _ shown-collides-parked rows ready h))
          (All-map _ (λ r. shown (parked c r)) rows (All-imp IsReady _ shown-IsPlaced rows ready))
        ∙ ap ok (
            map-map _ _ rows
            ∙ map-eq_of_All _ _ rows (pointwise ids d rows ready covers)
            ∙ sym (map-map _ _ rows)))
