-- ===== src/WebDav/Access/Items.antt =====
-- lied/src/webdav/access.rs: the check of one item and the listing of its collection.
use lied.Prelude.{
  ℕ, ◌≡◌, refl, sym, ◌∙◌, Bool, true, false, ◌&&◌, List, [], ◌∷◌, any, All, All-imp, inl, inr,
  Bool-cases, ◌==◌, is_none, arith,
}
use lied.Domain.CollectionItem.{CollectionItem}
use lied.Domain.PartAssignment.{PartAssignment}
use lied.Domain.Entities.{Arrangement}
use lied.WebDav.Access.{
  Tables, VisibleCollectionItem, is_arrangement_of, has_voice, is_live_item, is_listed,
  is_played_by, shown_before, rows_of_item, item_rows, restricted, visible_collection_items,
  has_assignment_on_item,
}
use lied.WebDav.Access.Phantoms.{any-and, any-ext, any-swap}
use lied.WebDav.Access.Narrowing.{any-append, any-order_by}

module _ (i : ℕ) where
  abbrev names_item : VisibleCollectionItem → Bool
  names_item row = row.id == i

  any-rows_of_item :
      (item : CollectionItem) (arrangements : List Arrangement)
      → any names_item (rows_of_item item arrangements)
        ≡ (item.id == i && any (is_arrangement_of item) arrangements)
  unfolding rows_of_item
  any-rows_of_item item [] = elim (Bool-cases (item.id == i)) [
    | inl e ↦ rw e refl
    | inr e ↦ rw e refl
  ]
  any-rows_of_item item (a ∷ arrangements) =
      let rest = any-rows_of_item item arrangements in
      elim (Bool-cases (is_arrangement_of item a)) [
        | inl e ↦ rw e (ground (arith, rest))
        | inr e ↦ rw e rest
      ]

  any-item_rows :
      (p : CollectionItem → Bool) (arrangements : List Arrangement) (items : List CollectionItem)
      → any names_item (item_rows p arrangements items)
        ≡ any (λ item. p item && (item.id == i && any (is_arrangement_of item) arrangements)) items
  unfolding item_rows
  any-item_rows p arrangements [] = refl
  any-item_rows p arrangements (item ∷ items) = elim (Bool-cases (p item)) [
    | inl e ↦ rw e (
        any-append names_item (rows_of_item item arrangements) (item_rows p arrangements items)
        ∙ rw (any-rows_of_item item arrangements, any-item_rows p arrangements items) refl)
    | inr e ↦ rw e (any-item_rows p arrangements items)
  ]

any-ext_All {ℓ} :
    {A : Type ℓ} (p q : A → Bool) (xs : List A) → All (λ x. p x ≡ q x) xs → any p xs ≡ any q xs
any-ext_All p q [] _ = refl
any-ext_All p q (x ∷ xs) (h, hs) = rw (h, any-ext_All p q xs hs) refl

named_first : (n l r w : Bool) → (n && ((l && r) && w)) ≡ ((l && w) && (n && r))
named_first true true true true = refl
named_first true true true false = refl
named_first true true false true = refl
named_first true true false false = refl
named_first true false r w = refl
named_first false true r true = refl
named_first false true r false = refl
named_first false false r w = refl

and_false : (b : Bool) → (b && false) ≡ false
and_false true = refl
and_false false = refl

module _ (db : Tables) (i c user : ℕ) where
  abbrev asks : PartAssignment → CollectionItem → Bool
  asks pa item =
      item.id == pa.collection_item_id
      && (pa.collection_item_id == i
          && (is_live_item db item && (pa.user_id == user && has_voice db pa)))

  abbrev plays : CollectionItem → PartAssignment → Bool
  plays item pa = pa.collection_item_id == item.id && (pa.user_id == user && has_voice db pa)

  asks-eq :
      (item : CollectionItem) (pa : PartAssignment)
      → asks pa item ≡ ((item.id == i && is_live_item db item) && plays item pa)
  asks-eq item pa =
      let wants = pa.user_id == user && has_voice db pa in
      elim (Bool-cases (is_live_item db item)) [
        | inl l ↦ elim (Bool-cases wants) [
          | inl w ↦ rw (l, w) (ground arith)
          | inr w ↦ rw (l, w) (ground arith)
        ]
        | inr l ↦ rw l (ground arith)
      ]

  item-eq :
      (item : CollectionItem)
      → (item.id == i ≡ true → item.collection_id ≡ c)
      → any (λ pa. asks pa item) db.assignments ≡ (
          (is_listed c item && is_played_by db user item)
          && (item.id == i && any (is_arrangement_of item) db.arrangements))
  item-eq item inside =
      any-ext (λ pa. asks pa item) _ db.assignments (asks-eq item)
      ∙ any-and (item.id == i && is_live_item db item) (plays item) db.assignments
      ∙ elim (Bool-cases (item.id == i)) [
        | inl e ↦
            let same = inside e in
            let listed : (item.collection_id == c) ≡ true = ground arith in
            rw (e, listed)
              (named_first true (is_none item.deleted_at)
                (any (is_arrangement_of item) db.arrangements) (is_played_by db user item))
        | inr e ↦ rw e (sym (and_false (is_listed c item && is_played_by db user item)))
      ]

-- The check of one item and the listing of its collection agree: when the items with the id stand in
-- the collection, a restricted user may see the item exactly when it is in the listing of the
-- collection for this user.
pub has_assignment_on_item-visible :
    (db : Tables) (i c user : ℕ)
    → All (λ (item : CollectionItem). item.id == i ≡ true → item.collection_id ≡ c) db.items
    → has_assignment_on_item db i user
      ≡ any (λ row. row.id == i) (visible_collection_items db c user restricted)
unfolding has_assignment_on_item visible_collection_items
has_assignment_on_item-visible db i c user inside =
    let p = λ (item : CollectionItem). is_listed c item && is_played_by db user item in
    any-swap (asks db i c user) db.assignments db.items
    ∙ any-ext_All _ _ db.items (All-imp _ _ (item-eq db i c user) db.items inside)
    ∙ sym (any-item_rows i p db.arrangements db.items)
    ∙ sym (any-order_by (names_item i) shown_before (item_rows p db.arrangements db.items))
