-- ===== src/WebDav/Access/Phantoms.antt =====
-- lied/src/webdav/access.rs: a collection that is shown is not empty.
use lied.Prelude.{
  ℕ, ◌≡◌, refl, sym, ◌∙◌, ap, Bool, true, false, not, ◌&&◌, ◌||◌, List, [], ◌∷◌, ◌++◌, any, length,
  inl, inr, Bool-cases, ◌==◌, is_none, arith,
}
use lied.Sql.{order_by}
use lied.Sql.OrderBy.{length-order_by}
use lied.Domain.CollectionItem.{CollectionItem}
use lied.Domain.PartAssignment.{PartAssignment}
use lied.Domain.Entities.{Arrangement}
use lied.WebDav.Access.{
  Tables, VisibleCollectionItem, is_arrangement_of, has_voice, is_live_item, is_listed,
  is_played_by, shown_before, rows_of_item, item_rows, restricted, visible_collection_items,
  has_assignment_in_collection,
}

module _ {ℓ} {A : Type ℓ} where
  abbrev pub is_empty : List A → Bool
  is_empty [] = true
  is_empty (x ∷ xs) = false

  is_empty-append :
      (xs ys : List A) → not (is_empty (xs ++ ys)) ≡ (not (is_empty xs) || not (is_empty ys))
  is_empty-append [] ys = refl
  is_empty-append (x ∷ xs) ys = refl

  any-or : (p q : A → Bool) (xs : List A) → any (λ x. p x || q x) xs ≡ (any p xs || any q xs)
  any-or p q [] = refl
  any-or p q (x ∷ xs) = ground (arith, any-or p q xs)

  any-none : (xs : List A) → any (λ x. false) xs ≡ false
  any-none [] = refl
  any-none (x ∷ xs) = any-none xs

  pub any-and : (b : Bool) (q : A → Bool) (xs : List A) → any (λ x. b && q x) xs ≡ (b && any q xs)
  any-and true q xs = refl
  any-and false q xs = any-none xs

  pub any-ext : (p q : A → Bool) (xs : List A) → ((x : A) → p x ≡ q x) → any p xs ≡ any q xs
  any-ext p q [] h = refl
  any-ext p q (x ∷ xs) h = rw (h x, any-ext p q xs h) refl

pub any-swap {ℓ κ} :
    {A : Type ℓ} {B : Type κ} (p : A → B → Bool) (xs : List A) (ys : List B)
    → any (λ x. any (p x) ys) xs ≡ any (λ y. any (λ x. p x y) xs) ys
any-swap p [] ys = sym (any-none ys)
any-swap p (x ∷ xs) ys =
    ap (λ b. any (p x) ys || b) (any-swap p xs ys)
    ∙ sym (any-or (p x) (λ y. any (λ x. p x y) xs) ys)

rows_of_item-any :
    (item : CollectionItem) (arrangements : List Arrangement)
    → not (is_empty (rows_of_item item arrangements)) ≡ any (is_arrangement_of item) arrangements
unfolding rows_of_item
rows_of_item-any item [] = refl
rows_of_item-any item (a ∷ arrangements) = elim (Bool-cases (is_arrangement_of item a)) [
  | inl e ↦ rw e refl
  | inr e ↦ rw e (rows_of_item-any item arrangements)
]

item_rows-any :
    (p : CollectionItem → Bool) (arrangements : List Arrangement) (items : List CollectionItem)
    → not (is_empty (item_rows p arrangements items))
      ≡ any (λ item. p item && any (is_arrangement_of item) arrangements) items
unfolding item_rows
item_rows-any p arrangements [] = refl
item_rows-any p arrangements (item ∷ items) = elim (Bool-cases (p item)) [
  | inl e ↦ rw e (
      is_empty-append (rows_of_item item arrangements) (item_rows p arrangements items)
      ∙ rw (rows_of_item-any item arrangements, item_rows-any p arrangements items) refl)
  | inr e ↦ rw e (item_rows-any p arrangements items)
]

is_empty-length {ℓ} : {A : Type ℓ} (xs : List A) → is_empty xs ≡ (length xs == 0)
is_empty-length [] = refl
is_empty-length (x ∷ xs) = ground arith

is_empty-order_by :
    (rows : List VisibleCollectionItem) → is_empty (order_by shown_before rows) ≡ is_empty rows
is_empty-order_by rows =
    is_empty-length (order_by shown_before rows)
    ∙ ap (λ n. n == 0) (length-order_by shown_before rows)
    ∙ sym (is_empty-length rows)

item_first : (e a l w : Bool) → (e && (a && (l && w))) ≡ ((a && l) && (e && w))
item_first true true l w = refl
item_first true false l w = refl
item_first false true true w = refl
item_first false true false w = refl
item_first false false l w = refl

played_last : (a n r p : Bool) → ((a && (n && r)) && p) ≡ (((a && n) && p) && r)
played_last true true true true = refl
played_last true true true false = refl
played_last true true false true = refl
played_last true true false false = refl
played_last true false r p = refl
played_last false n r p = refl

pub ==_sym : (a b : ℕ) → (a == b) ≡ (b == a)
==_sym a b = ground arith

module _ (db : Tables) (c user : ℕ) where
  -- What the query asks of one assignment and one item.
  abbrev asks : PartAssignment → CollectionItem → Bool
  asks pa item =
      item.id == pa.collection_item_id
      && (item.collection_id == c
          && (is_live_item db item && (pa.user_id == user && has_voice db pa)))

  abbrev plays : CollectionItem → PartAssignment → Bool
  plays item pa = pa.collection_item_id == item.id && (pa.user_id == user && has_voice db pa)

  -- The conditions on the item alone, taken out.
  asks-eq :
      (item : CollectionItem) (pa : PartAssignment)
      → asks pa item ≡ ((item.collection_id == c && is_live_item db item) && plays item pa)
  asks-eq item pa =
      let wants = pa.user_id == user && has_voice db pa in
      let a = item.collection_id == c in
      let l = is_live_item db item in
      item_first (item.id == pa.collection_item_id) a l wants
      ∙ ap (λ e. (a && l) && (e && wants)) (==_sym item.id pa.collection_item_id)

  item-eq :
      (item : CollectionItem)
      → any (λ pa. asks pa item) db.assignments ≡ (
          (is_listed c item && is_played_by db user item)
          && any (is_arrangement_of item) db.arrangements)
  item-eq item =
      any-ext (λ pa. asks pa item) _ db.assignments (asks-eq item)
      ∙ any-and (item.collection_id == c && is_live_item db item) (plays item) db.assignments
      ∙ played_last (item.collection_id == c) (is_none item.deleted_at)
          (any (is_arrangement_of item) db.arrangements) (is_played_by db user item)

-- No phantom directory: a collection is shown to a restricted user exactly when the listing of its
-- items for this user is not empty.
pub has_assignment_in_collection-visible :
    (db : Tables) (c user : ℕ)
    → has_assignment_in_collection db c user
      ≡ not (is_empty (visible_collection_items db c user restricted))
unfolding has_assignment_in_collection visible_collection_items
has_assignment_in_collection-visible db c user =
    let p = λ (item : CollectionItem). is_listed c item && is_played_by db user item in
    any-swap (asks db c user) db.assignments db.items
    ∙ any-ext _ _ db.items (item-eq db c user)
    ∙ sym (item_rows-any p db.arrangements db.items)
    ∙ ap not (sym (is_empty-order_by (item_rows p db.arrangements db.items)))
