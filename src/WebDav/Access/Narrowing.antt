-- ===== src/WebDav/Access/Narrowing.antt =====
-- lied/src/webdav/access.rs: a restricted user sees nothing that the staff does not see.
use lied.Prelude.{
  ℕ, ◌≡◌, refl, sym, ◌∙◌, ap, Bool, true, ◌&&◌, ◌||◌, List, [], ◌∷◌, ◌++◌, any, inl, inr,
  Bool-cases, arith,
}
use lied.Sql.{order_by, insert_sorted}
use lied.Domain.CollectionItem.{CollectionItem}
use lied.Domain.Entities.{Arrangement}
use lied.WebDav.Access.{
  Tables, VisibleCollectionItem, is_listed, is_played_by, shown_before, rows_of_item, item_rows,
  staff, restricted, visible_collection_items,
}

module _ {ℓ} {A : Type ℓ} (q : A → Bool) where
  pub any-append : (xs ys : List A) → any q (xs ++ ys) ≡ (any q xs || any q ys)
  any-append [] ys = refl
  any-append (x ∷ xs) ys = ground (arith, any-append xs ys)

  any-insert_sorted :
      (before : A → A → Bool) (x : A) (xs : List A)
      → any q (insert_sorted before x xs) ≡ (q x || any q xs)
  unfolding insert_sorted
  any-insert_sorted before x [] = refl
  any-insert_sorted before x (y ∷ ys) = elim (Bool-cases (before x y)) [
    | inl e ↦ rw e refl
    | inr e ↦ rw e (ground (arith, any-insert_sorted before x ys))
  ]

  pub any-order_by : (before : A → A → Bool) (xs : List A) → any q (order_by before xs) ≡ any q xs
  unfolding order_by
  any-order_by before [] = refl
  any-order_by before (x ∷ xs) =
      any-insert_sorted before x (order_by before xs) ∙ ap (λ b. q x || b) (any-order_by before xs)

module _ (q : VisibleCollectionItem → Bool) (p wide : CollectionItem → Bool)
    (narrower : (item : CollectionItem) → p item ≡ true → wide item ≡ true)
    (arrangements : List Arrangement) where
  any-item_rows :
      (items : List CollectionItem)
      → any q (item_rows p arrangements items) ≡ true
      → any q (item_rows wide arrangements items) ≡ true
  unfolding item_rows
  any-item_rows [] h = h
  any-item_rows (item ∷ items) h =
      let here = rows_of_item item arrangements in
      let split = any-append q here (item_rows p arrangements items) in
      let split_wide = any-append q here (item_rows wide arrangements items) in
      elim (Bool-cases (p item)) [
        | inl e ↦
            let f = narrower item e in
            let h' = rw e at h in rw f (ground (arith, any-item_rows items, split, split_wide))
        | inr e ↦
            let rest = any-item_rows items (rw e at h) in
            elim (Bool-cases (wide item)) [
              | inl f ↦ rw f (ground (arith, split_wide))
              | inr f ↦ rw f rest
            ]
      ]

listed_of_played :
    (db : Tables) (c user : ℕ) (item : CollectionItem)
    → (is_listed c item && is_played_by db user item) ≡ true
    → is_listed c item ≡ true
listed_of_played db c user item h = ground arith

-- Whatever a restricted user can find in the listing of a collection, by any test on its entries,
-- the staff finds in its listing.
pub restricted-within_staff :
    (q : VisibleCollectionItem → Bool) (db : Tables) (c user : ℕ)
    → any q (visible_collection_items db c user restricted) ≡ true
    → any q (visible_collection_items db c user staff) ≡ true
unfolding visible_collection_items
restricted-within_staff q db c user h =
    let p = λ (item : CollectionItem). is_listed c item && is_played_by db user item in
    any-order_by q shown_before (item_rows (is_listed c) db.arrangements db.items)
    ∙ any-item_rows q p (is_listed c) (listed_of_played db c user) db.arrangements db.items
        (sym (any-order_by q shown_before (item_rows p db.arrangements db.items)) ∙ h)
