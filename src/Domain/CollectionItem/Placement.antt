-- ===== src/Domain/CollectionItem/Placement.antt =====
-- Parking and numbering as maps: no statement of theirs meets a unique index.
use mathlib.Core.List.{map-map, map-id}
use lied.Prelude.{
  ℕ, suc, ◌+◌, ◌≤◌, ◌<◌, ◌≡◌, refl, ◌∙◌, ap, subst, ◌⊎◌, Bool, true, false, ◌&&◌, Option, none,
  some, List, [], ◌∷◌, map, inl, inr, ok, length, All, All-imp, All-map, All-intro, Pairs,
  Pairs-imp, Pairs-map, ◌==◌, ==_iff, if◌then◌else◌, arith, Bool-cases, Distinct, position_of,
  position_of-eq-none, not_contains_of_All, contains, ◌≢◌,
}
use lied.Prelude.Int.{pos, ◌≤ℤ◌, ◌<ℤ◌, add_ℕ}
use lied.Sql.{collides}
use lied.Sql.Update.{Apart, update-eq-map}
use lied.Domain.CollectionItem.{
  CollectionItem, Table, indexes, max_index, index_park_offset, is_live_in, with_index, shifted,
  park, assign_from,
}

-- The table keeps its primary key and its unique indexes.
abbrev pub IsConsistent : Table → Type 0
IsConsistent = Pairs (λ r s. collides indexes r s ≡ false)

module _ (c : ℕ) where
  -- A live piece of the collection has a usable number.
  abbrev pub IsInRange : CollectionItem → Type 0
  IsInRange r = is_live_in c r ≡ true → (pos 1 ≤ℤ r.index) × (r.index ≤ℤ pos max_index)

  abbrev pub up : CollectionItem → CollectionItem
  up r = record r { index = add_ℕ r.index index_park_offset }

  abbrev pub parked : CollectionItem → CollectionItem
  parked r = if is_live_in c r then up r else r

  shifted-InRange :
      (r : CollectionItem) → IsInRange r → is_live_in c r ≡ true → shifted r ≡ ok (up r)
  shifted-InRange r h e = ground (arith, h e)

  -- A parked number is free of the old numbers and of the other parked ones.
  parked-Apart :
      (r s : CollectionItem)
      → IsInRange r
      → IsInRange s
      → collides indexes r s ≡ false
      → Apart indexes (is_live_in c) shifted up r s
  parked-Apart r s hr hs h = (λ e. ground arith, λ e. ground arith)

  pub park-eq-map :
      (rows : Table) → IsConsistent rows → All IsInRange rows → park c rows ≡ ok (map parked rows)
  unfolding park
  park-eq-map rows h range = rw (
      update-eq-map indexes (is_live_in c) shifted up rows
        (All-imp IsInRange _ shifted-InRange rows range)
        (Pairs-imp IsInRange _ _ parked-Apart rows range h))

module _ (c : ℕ) where
  -- After `position` numbers the live pieces have those numbers, or are parked.
  abbrev pub IsPlaced : ℕ → CollectionItem → Type 0
  IsPlaced position r =
      is_live_in c r ≡ true → (r.index ≤ℤ pos position) ⊎ (pos index_park_offset <ℤ r.index)

  abbrev pub is_at : ℕ → CollectionItem → Bool
  is_at id r = r.id == id && is_live_in c r

-- What numbering leaves of a row that stands at a place counted from `position`.
abbrev pub placed_at : ℕ → ℕ → CollectionItem → Option ℕ → CollectionItem
placed_at now position r none = r
placed_at now position r (some j) = with_index (pos (suc (position + j))) now r

module _ (now c : ℕ) where
  abbrev pub numbered : ℕ → ℕ → CollectionItem → CollectionItem
  numbered position id r = if is_at c id r then with_index (pos (suc position)) now r else r

  -- The loop of `assign_order` on one row.
  abbrev pub assigned : ℕ → List ℕ → CollectionItem → CollectionItem
  assigned position [] r = r
  assigned position (id ∷ ids) r = assigned (suc position) ids (numbered position id r)

  numbered-Apart :
      (position id : ℕ) (r s : CollectionItem)
      → position < index_park_offset
      → IsPlaced c position r
      → IsPlaced c position s
      → collides indexes r s ≡ false
      → Apart indexes
          (is_at c id)
          (λ t. ok (with_index (pos (suc position)) now t))
          (with_index (pos (suc position)) now)
          r
          s
  numbered-Apart position id r s room hr hs h = ground arith

  numbered-collides :
      (position id : ℕ) (r s : CollectionItem)
      → position < index_park_offset
      → IsPlaced c position r
      → IsPlaced c position s
      → collides indexes r s ≡ false
      → collides indexes (numbered position id r) (numbered position id s) ≡ false
  numbered-collides position id r s room hr hs h = ground arith

  numbered-IsPlaced :
      (position id : ℕ) (r : CollectionItem)
      → IsPlaced c position r
      → IsPlaced c (suc position) (numbered position id r)
  numbered-IsPlaced position id r h = ground arith

  pub assign_from-eq-map :
      (position : ℕ) (ids : List ℕ) (rows : Table)
      → position + length ids ≤ index_park_offset
      → IsConsistent rows
      → All (IsPlaced c position) rows
      → assign_from now c position ids rows ≡ ok (map (assigned position ids) rows)
  unfolding assign_from
  assign_from-eq-map position [] rows room h placed = rw map-id
  assign_from-eq-map position (id ∷ ids) rows room h placed =
      let first =
        update-eq-map indexes (is_at c id) (λ t. ok (with_index (pos (suc position)) now t))
          (with_index (pos (suc position)) now) rows (All-intro _ (λ r _. refl) rows)
          (Pairs-imp (IsPlaced c position) _ _ (λ r s. numbered-Apart position id r s (omega arith))
            rows placed h) in
      let ih =
        assign_from-eq-map (suc position) ids (map (numbered position id) rows) (omega arith)
          (Pairs-map _ (numbered position id) rows (
            Pairs-imp (IsPlaced c position) _ _
              (λ r s. numbered-collides position id r s (omega arith)) rows placed h))
          (All-map _ (numbered position id) rows
            (All-imp (IsPlaced c position) _ (numbered-IsPlaced position id) rows placed)) in
      rw first (ih ∙ ap ok (map-map _ _ rows))

  pub assigned_of_hidden :
      (position : ℕ) (ids : List ℕ) (r : CollectionItem)
      → is_live_in c r ≡ false
      → assigned position ids r ≡ r
  assigned_of_hidden position [] r h = refl
  assigned_of_hidden position (id ∷ ids) r h =
      ap (assigned (suc position) ids) (ground arith) ∙ assigned_of_hidden (suc position) ids r h

  placed_at-suc :
      (position : ℕ) (r : CollectionItem) (o : Option ℕ)
      → placed_at now (suc position) r o
        ≡ placed_at now position r (elim o [ none ↦ none | some j ↦ some (suc j) ])
  placed_at-suc position r none = refl
  placed_at-suc position r (some j) =
      let e : suc (suc position + j) ≡ suc (position + suc j) = omega arith in rw e

  numbered_hit :
      (position id : ℕ) (r : CollectionItem)
      → is_live_in c r ≡ true
      → id ≡ r.id
      → numbered position id r ≡ with_index (pos (suc (position + 0))) now r
  numbered_hit position id r h e = ground arith

  numbered_miss : (position id : ℕ) (r : CollectionItem) → id ≢ r.id → numbered position id r ≡ r
  numbered_miss position id r e = ground arith

  pub assigned_of_live :
      (position : ℕ) (ids : List ℕ) (r : CollectionItem)
      → Distinct ids
      → is_live_in c r ≡ true
      → assigned position ids r ≡ placed_at now position r (position_of r.id ids)
  assigned_of_live position [] r _ h = refl
  assigned_of_live position (id ∷ ids) r (d, ds) h = elim (Bool-cases (id == r.id)) [
    | inl e ↦
        let same : id ≡ r.id = (==_iff id r.id).0 e in
        let fresh : contains r.id ids ≡ false =
          not_contains_of_All r.id ids (subst (λ a. All (λ y. a ≢ y) ids) same d) in
        let r' = with_index (pos (suc (position + 0))) now r in
        let gone = position_of-eq-none r.id ids fresh in
        rw (numbered_hit position id r h same, e)
          (assigned_of_live (suc position) ids r' ds h ∙ rw gone)
    | inr e ↦
        rw (numbered_miss position id r (λ same. ground arith), e)
          (assigned_of_live (suc position) ids r ds h
            ∙ placed_at-suc position r (position_of r.id ids))
  ]
