-- ===== src/WebDav/Fs/Items.antt =====
-- lied/src/webdav/fs.rs: an item that is found, and the assignments that are behind it.
use lied.Prelude.{
  ℕ, ◌≡◌, subst, Bool, true, ◌&&◌, some, List, [], ◌∷◌, inl, inr, any, find, ◌==◌, is_none, arith,
  Bool-cases, Option-cases,
}
use lied.Prelude.Int.{ℤ, eq_ℤ}
use lied.Prelude.Text.{Text}
use lied.Sql.Lookup.{any_of_find, any_of_found, holds_of_find}
use lied.Domain.CollectionItem.{CollectionItem}
use lied.Domain.PartAssignment.{PartAssignment}
use lied.Domain.Entities.{Arrangement, Voice}
use lied.WebDav.Access.{
  Tables, is_arrangement_of, has_voice, is_live_item, has_assignment_in_collection,
  has_assignment_on_item, has_assignment_on_item_voice,
}
use lied.WebDav.Fs.{LiedFs, is_voice_at, find_item}

any-imp {ℓ} :
    {A : Type ℓ} (p q : A → Bool) (xs : List A)
    → ((x : A) → p x ≡ true → q x ≡ true)
    → any p xs ≡ true
    → any q xs ≡ true
any-imp p q [] h e = e
any-imp p q (x ∷ xs) h e = elim (Bool-cases (p x)) [
  | inl k ↦ let y = h x k in ground arith
  | inr k ↦ let y = any-imp p q xs h (rw k at e) in ground arith
]

module _ (db : Tables) (fs : LiedFs) where
  -- An item that the join finds is live, in the collection, and has a live arrangement.
  pub record IsFound (coll_id : ℕ) (item : CollectionItem) (a : Arrangement)
      (items : List CollectionItem) : Type 0 where
    pub within : (item.collection_id == coll_id) ≡ true
    pub alive : is_live_item db item ≡ true
    pub there : (q : CollectionItem → Bool) → q item ≡ true → any q items ≡ true

  pub find_item-IsFound :
      (coll_id : ℕ) (index : ℤ) (items : List CollectionItem) {item : CollectionItem}
      {a : Arrangement}
      → find_item db fs coll_id index items ≡ some (item, a)
      → IsFound coll_id item a items
  unfolding find_item
  find_item-IsFound coll_id index [] e = absurd (cc)
  find_item-IsFound coll_id index (i ∷ items) {item} {a} e =
      let test = i.collection_id == coll_id && (eq_ℤ i.index index && is_none i.deleted_at) in
      let later = λ (rest : find_item db fs coll_id index items ≡ some (item, a)).
        let found = find_item-IsFound coll_id index items rest in
        let more : IsFound coll_id item a (i ∷ items) = record {
          within = found.within;
          alive = found.alive;
          there = λ q h. let k = found.there q h in ground arith;
        } in
        more in
      elim (Bool-cases test) [
        | inr t ↦ later (rw (find_item, t) at e)
        | inl t ↦ elim (Option-cases (find (is_arrangement_of i) db.arrangements)) [
          | inl n ↦ later (rw (find_item, t, n) at e)
          | inr (b, n) ↦
              let e' = rw (find_item, t, n) at e in
              let same : i ≡ item = cc in
              let some_arrangement = any_of_find (is_arrangement_of i) db.arrangements n in
              let found : IsFound coll_id i a (i ∷ items) = record {
                within = ground arith;
                alive = ground arith;
                there = λ q h. ground arith;
              } in
              subst (λ j. IsFound coll_id j a (i ∷ items)) same found
        ]
      ]

  -- An assignment to a live voice on a live item is one on the item, and one in its collection.
  module _ (coll_id : ℕ) (item : CollectionItem) (a : Arrangement)
      (found : IsFound coll_id item a db.items) (v : Voice) (voice : Text)
      (named : find (is_voice_at item.arrangement_id voice) db.voices ≡ some v)
      (assigned : has_assignment_on_item_voice db item.id v.id fs.user_id ≡ true) where
    sings : (pa : PartAssignment) → (pa.voice_id == v.id) ≡ true → has_voice db pa ≡ true
    sings pa e =
        let live = holds_of_find (is_voice_at item.arrangement_id voice) db.voices named in
        any_of_found (is_voice_at item.arrangement_id voice) _ db.voices named (ground arith)

    pub on_item : has_assignment_on_item db item.id fs.user_id ≡ true
    unfolding has_assignment_on_item has_assignment_on_item_voice
    on_item =
        any-imp _ _ db.assignments
          (λ pa e.
            let s = sings pa (ground arith) in let l = found.alive in found.there _ (ground arith))
          assigned

    pub in_collection : has_assignment_in_collection db coll_id fs.user_id ≡ true
    unfolding has_assignment_in_collection has_assignment_on_item_voice
    in_collection =
        any-imp _ _ db.assignments
          (λ pa e.
            let s = sings pa (ground arith) in
            let l = found.alive in let w = found.within in found.there _ (ground arith))
          assigned
