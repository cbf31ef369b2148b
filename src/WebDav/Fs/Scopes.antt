-- ===== src/WebDav/Fs/Scopes.antt =====
-- lied/src/webdav/fs.rs: the check of a voice in a collection implies the checks that it skips.
use lied.Prelude.{
  ℕ, ◌≡◌, refl, ◌∙◌, ap, Bool, true, false, not, ◌||◌, some, inl, inr, ok, ◌>>=◌, guard, find,
  Option-cases,
}
use lied.Prelude.Int.{ℤ}
use lied.Prelude.Text.{Text, text_eq}
use lied.Domain.CollectionItem.{CollectionItem}
use lied.Domain.Entities.{Arrangement}
use lied.WebDav.Access.{
  Tables, Visibility, staff, restricted, is_staff_view, resolve_org_visibility,
  has_assignment_in_collection, has_assignment_on_item, has_assignment_on_item_voice,
}
use lied.WebDav.Fs.{
  not_found, LiedFs, FsResult, ok_or, voice_id_by_slug, is_voice_at, collection_id_by_slug,
  require_assignment, find_item, resolve_collection_scoped, resolve_collection,
  resolve_collection_item_scoped, resolve_collection_item, resolve_collection_voice,
}
use lied.WebDav.Fs.Results.{
  Hides, Hides-ok_or, Hides-guard, Hides-bind, skip, bind-ok, ok_or-ok, guard-ok,
}
use lied.WebDav.Fs.Items.{IsFound, find_item-IsFound, on_item, in_collection}

module _ (db : Tables) (fs : LiedFs) where
  Hides-collection :
      (org coll : Text) (check : Bool) → Hides (resolve_collection_scoped db fs org coll check)
  unfolding resolve_collection_scoped
  Hides-collection org coll check =
      Hides-bind _ _ (Hides-ok_or (resolve_org_visibility db org fs.user_id)) λ o.
        Hides-bind _ _ (Hides-ok_or (collection_id_by_slug db o.0 coll)) λ c.
          Hides-bind _ _
            (Hides-guard
              (is_staff_view o.1 || (not check || has_assignment_in_collection db c fs.user_id)))
            λ _. inr (_, refl)

  Hides-item :
      (org coll : Text) (index : ℤ) (slug : Text) (check : Bool)
      → Hides (resolve_collection_item_scoped db fs org coll index slug check)
  unfolding resolve_collection_item_scoped
  Hides-item org coll index slug check = Hides-bind _ _ (Hides-collection org coll false) λ c.
      Hides-bind _ _ (Hides-ok_or (find_item db fs c.1 index db.items)) λ i.
        Hides-bind _ _ (Hides-guard (text_eq i.1.slug slug)) λ _.
          Hides-bind _ _
            (Hides-guard
              (is_staff_view c.2 || (not check || has_assignment_on_item db i.0.id fs.user_id)))
            λ _. inr (_, refl)

  Hides-voice :
      (org coll : Text) (index : ℤ) (slug voice : Text)
      → Hides (resolve_collection_voice db fs org coll index slug voice)
  unfolding resolve_collection_voice
  Hides-voice org coll index slug voice = Hides-bind _ _ (Hides-item org coll index slug false) λ i.
      Hides-bind _ _ (Hides-ok_or (voice_id_by_slug db i.3 voice)) λ v.
        Hides-bind _ _
          (Hides-guard (is_staff_view i.5 || has_assignment_on_item_voice db i.2 v fs.user_id))
          λ _. inr (_, refl)

module _ (db : Tables) (fs : LiedFs) (org coll : Text) where
  -- The check that was left out is made up for.
  collection-checked :
      {c : ℕ × ℕ × Visibility}
      → resolve_collection_scoped db fs org coll false ≡ ok c
      → (is_staff_view c.2 || has_assignment_in_collection db c.1 fs.user_id) ≡ true
      → resolve_collection db fs org coll ≡ ok c
  unfolding resolve_collection resolve_collection_scoped
  collection-checked {c} e h =
      let (o, e1, k1) = bind-ok (ok_or (resolve_org_visibility db org fs.user_id) not_found) _ e in
      let (i, e2, k2) = bind-ok (ok_or (collection_id_by_slug db o.0 coll) not_found) _ k1 in
      let (u, e3, k3) = bind-ok (require_assignment o.1 true) _ k2 in
      let org_id : o.0 ≡ c.0 = cc in
      let coll_id : i ≡ c.1 = cc in
      let vis : o.1 ≡ c.2 = cc in
      let h' : (is_staff_view o.1 || has_assignment_in_collection db i fs.user_id) ≡ true =
        rw (vis, coll_id) h in
      rw (ok_or-ok _ _ e1, ok_or-ok _ _ e2, h') k3

  collection_of_item :
      (index : ℤ) (slug : Text) {i : ℕ × ℕ × ℕ × ℕ × Text × Visibility}
      → resolve_collection_item_scoped db fs org coll index slug false ≡ ok i
      → (c : ℕ × ℕ × Visibility) × (p : CollectionItem × Arrangement) × (resolve_collection_scoped
            db fs org coll false
          ≡ ok c)
        × (find_item db fs c.1 index db.items ≡ some p)
        × (text_eq p.1.slug slug ≡ true)
        × ((c.0, c.1, p.0.id, p.0.arrangement_id, p.1.slug, c.2) ≡ i)
  unfolding resolve_collection_item_scoped
  collection_of_item index slug {i} e =
      let (c, e1, k1) = bind-ok (resolve_collection_scoped db fs org coll false) _ e in
      let (p, e2, k2) = bind-ok (ok_or (find_item db fs c.1 index db.items) not_found) _ k1 in
      let (u, e3, k3) = bind-ok (guard (text_eq p.1.slug slug) not_found) _ k2 in
      let (w, e4, k4) = bind-ok (require_assignment c.2 true) _ k3 in
      (c, p, e1, ok_or-ok _ _ e2, guard-ok _ _ e3, cc)

module _ (db : Tables) (fs : LiedFs) (org coll : Text) (index : ℤ) (slug voice : Text) where
  -- The two checks that the check of the voice implies.
  record Allowed (coll_id item_id : ℕ) (vis : Visibility) : Type 0 where
    on_the_item : (is_staff_view vis || has_assignment_on_item db item_id fs.user_id) ≡ true
    in_the_collection :
        (is_staff_view vis || has_assignment_in_collection db coll_id fs.user_id) ≡ true

  allowed :
      (coll_id : ℕ) (vis : Visibility) (item : CollectionItem) (a : Arrangement) (v : ℕ)
      → IsFound db fs coll_id item a db.items
      → voice_id_by_slug db item.arrangement_id voice ≡ some v
      → (is_staff_view vis || has_assignment_on_item_voice db item.id v fs.user_id) ≡ true
      → Allowed coll_id item.id vis
  unfolding voice_id_by_slug is_staff_view
  allowed coll_id staff item a v found named h = record {
    on_the_item = refl;
    in_the_collection = refl;
  }
  allowed coll_id restricted item a v found named h =
      elim (Option-cases (find (is_voice_at item.arrangement_id voice) db.voices)) [
        | inl n ↦ let named' = rw (voice_id_by_slug, n) at named in absurd (cc)
        | inr (row, n) ↦
            let named' = rw (voice_id_by_slug, n) at named in
            let same : v ≡ row.id = cc in
            let sung = rw same at h in
            record {
              on_the_item = on_item db fs coll_id item a found row voice n sung;
              in_the_collection = in_collection db fs coll_id item a found row voice n sung;
            }
      ]

  item-checked :
      {i : ℕ × ℕ × ℕ × ℕ × Text × Visibility}
      → resolve_collection_item_scoped db fs org coll index slug false ≡ ok i
      → (is_staff_view i.5 || has_assignment_on_item db i.2 fs.user_id) ≡ true
      → resolve_collection_item db fs org coll index slug ≡ ok i
  unfolding resolve_collection_item resolve_collection_item_scoped
  item-checked {i} e h =
      let (c, p, ce, fe, te, same) = collection_of_item db fs org coll index slug e in
      let h' = rw (← same) at h in rw (ce, fe, te, h') (ap ok same)

  -- What a voice that is resolved is reached through.
  ancestors :
      {b : ℕ × ℕ × ℕ × ℕ × Text × ℕ}
      → resolve_collection_voice db fs org coll index slug voice ≡ ok b
      → ((c : ℕ × ℕ × Visibility) × (resolve_collection db fs org coll ≡ ok c))
        × ((i : ℕ × ℕ × ℕ × ℕ × Text × Visibility) × (resolve_collection_item db fs org coll index
                slug
              ≡ ok i))
  unfolding resolve_collection_voice
  ancestors e =
      let (i, e1, k1) =
        bind-ok (resolve_collection_item_scoped db fs org coll index slug false) _ e in
      let (v, e2, k2) = bind-ok (ok_or (voice_id_by_slug db i.3 voice) not_found) _ k1 in
      let (u, e3, k3) =
        bind-ok (require_assignment i.5 (has_assignment_on_item_voice db i.2 v fs.user_id)) _ k2 in
      let (c, p, ce, fe, te, same) = collection_of_item db fs org coll index slug e1 in
      let found = find_item-IsFound db fs c.1 index db.items fe in
      let named = rw (← same) at (ok_or-ok _ _ e2) in
      let sung = rw (← same) at (guard-ok _ _ e3) in
      let both = allowed c.1 c.2 p.0 p.1 v found named sung in
      (
        (c, collection-checked db fs org coll ce both.in_the_collection),
        (i, item-checked e1 (rw (← same) both.on_the_item)),
      )

  -- `resolve_collection_voice` skips the checks of the collection and of the item. It gives the same
  -- as when they are made before it: the same result, and NotFound where one of them refuses.
  pub resolve_collection_voice-checked :
      (resolve_collection db fs org coll >>= λ _.
      resolve_collection_item db fs org coll index slug >>= λ _.
      resolve_collection_voice db fs org coll index slug voice)
      ≡ resolve_collection_voice db fs org coll index slug voice
  unfolding resolve_collection resolve_collection_item
  resolve_collection_voice-checked =
      let last = resolve_collection_voice db fs org coll index slug voice in
      let item = resolve_collection_item db fs org coll index slug in
      let voice_hides = Hides-voice db fs org coll index slug voice in
      let item_skipped =
        skip item last (Hides-item db fs org coll index slug true) voice_hides
          (λ b e. (ancestors e).1) in
      ap (λ (r : FsResult (ℕ × ℕ × ℕ × ℕ × Text × ℕ)). resolve_collection db fs org coll >>= λ _. r)
        item_skipped
      ∙ skip (resolve_collection db fs org coll) last (Hides-collection db fs org coll true)
          voice_hides (λ b e. (ancestors e).0)

  -- An item that is resolved with its check is resolved without.
  pub item-unchecked :
      {i : ℕ × ℕ × ℕ × ℕ × Text × Visibility}
      → resolve_collection_item db fs org coll index slug ≡ ok i
      → resolve_collection_item_scoped db fs org coll index slug false ≡ ok i
  unfolding resolve_collection_item resolve_collection_item_scoped
  item-unchecked {i} e =
      let (c, e1, k1) = bind-ok (resolve_collection_scoped db fs org coll false) _ e in
      let (p, e2, k2) = bind-ok (ok_or (find_item db fs c.1 index db.items) not_found) _ k1 in
      let (u, e3, k3) = bind-ok (guard (text_eq p.1.slug slug) not_found) _ k2 in
      let (w, e4, k4) =
        bind-ok (require_assignment c.2 (has_assignment_on_item db p.0.id fs.user_id)) _ k3 in
      rw (e1, ok_or-ok _ _ e2, guard-ok _ _ e3) (go c.2 k4)
    where
      go :
          (vis : Visibility) {r : FsResult (ℕ × ℕ × ℕ × ℕ × Text × Visibility)}
          → r ≡ ok i
          → (require_assignment vis true >>= λ _. r) ≡ ok i
      go staff k = unfold is_staff_view in k
      go restricted k = unfold is_staff_view in k
