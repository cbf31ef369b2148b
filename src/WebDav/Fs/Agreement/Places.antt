-- ===== src/WebDav/Fs/Agreement/Places.antt =====
-- lied/src/webdav/fs.rs: the arrangements and the collections of an organization.
use lied.Prelude.{
  ℕ, ◌≡◌, refl, sym, ◌∙◌, ap, Bool, true, false, ◌&&◌, ◌||◌, map, inl, inr, any, find, ◌==◌, arith,
  Option-cases,
}
use mathlib.Core.Path.{fun_ext}
use lied.Prelude.Text.{Text, text_eq}
use lied.Domain.Entities.{Collection, Arrangement}
use lied.WebDav.Path.{arrangements_root, arrangement, collections_root, collection}
use lied.WebDav.Access.{
  Visibility, staff, restricted, is_staff_view, resolve_org_visibility,
  has_assignment_in_collection, is_live_item, has_voice,
}
use lied.WebDav.Access.Arrangements.{
  visible_arrangement_slugs, visible_collection_slugs, is_arrangement_in, is_collection_in,
  has_assignment_on_arrangement, has_played_item,
}
use lied.WebDav.Access.Phantoms.{any-ext, any-and, any-swap, ==_sym}
use lied.WebDav.Access.Narrowing.{any-order_by}
use lied.WebDav.Fs.{
  LiedFs, arr_id_by_slug, is_arrangement_at, collection_id_by_slug, is_collection_at, resolve_arr,
  resolve_collection, resolve_collection_scoped,
}
use lied.WebDav.Fs.Objects.{Server}
use lied.WebDav.Fs.Nodes.{stat}
use lied.WebDav.Fs.Directories.{list, slug_dirs}
use lied.WebDav.Fs.Listings.{has_entry, lists, is_ok, any-distinct, holds_at, any-slugs}
use lied.WebDav.Fs.Agreement.Slugs.{
  HasSlugs, has_entry-slug_dirs, is_ok-as_dir, is_ok-checked, keep-all,
}

module _ (srv : Server) (fs : LiedFs) (slugs : HasSlugs srv.tables) where
  listed_arrangement :
      (org_id : ℕ) (vis : Visibility) (a : Text)
      → has_entry a (
          slug_dirs srv fs (visible_arrangement_slugs srv.collate srv.tables org_id fs.user_id vis))
        ≡ holds_at
            (find (is_arrangement_at org_id a) srv.tables.arrangements)
            (λ r. is_staff_view vis || has_assignment_on_arrangement srv.tables r.id fs.user_id)
  unfolding visible_arrangement_slugs is_staff_view
  listed_arrangement org_id staff a =
      has_entry-slug_dirs a _
      ∙ any-order_by (λ t. text_eq t a) srv.collate _
      ∙ ap (λ rows. any (λ t. text_eq t a) (map (λ (r : Arrangement). r.slug) rows))
          (keep-all (is_arrangement_in org_id) srv.tables.arrangements)
      ∙ any-slugs (λ (r : Arrangement). r.slug) (is_arrangement_in org_id) (λ _. true) a
          srv.tables.arrangements (slugs.arrangements org_id)
  listed_arrangement org_id restricted a =
      has_entry-slug_dirs a _
      ∙ any-order_by (λ t. text_eq t a) srv.collate _
      ∙ any-distinct a _
      ∙ any-slugs (λ (r : Arrangement). r.slug) (is_arrangement_in org_id)
          (λ r. has_assignment_on_arrangement srv.tables r.id fs.user_id) a srv.tables.arrangements
          (slugs.arrangements org_id)

  pub arrangement_agrees :
      (o a : Text)
      → lists (list srv fs (arrangements_root o)) a ≡ is_ok (stat srv fs (arrangement o a))
  unfolding list stat resolve_arr arr_id_by_slug
  arrangement_agrees o a = elim (Option-cases (resolve_org_visibility srv.tables o fs.user_id)) [
    | inl e ↦ rw e refl
    | inr ((org_id, vis), e) ↦ rw e (
        listed_arrangement org_id vis a
        ∙ sym (
            is_ok-checked vis (find (is_arrangement_at org_id a) srv.tables.arrangements)
              (λ r. r.id) (λ i. has_assignment_on_arrangement srv.tables i fs.user_id)
              (λ i. (org_id, i, vis)))
        ∙ sym (is_ok-as_dir srv fs _))
  ]

  -- The two forms of the join behind a collection.
  played_iff :
      (c : ℕ)
      → has_assignment_in_collection srv.tables c fs.user_id
        ≡ any
            (λ item.
              item.collection_id == c
              && (is_live_item srv.tables item
                  && any
                      (λ pa.
                        pa.collection_item_id == item.id
                        && (pa.user_id == fs.user_id && has_voice srv.tables pa))
                      srv.tables.assignments))
            srv.tables.items
  unfolding has_assignment_in_collection
  played_iff c =
      any-swap _ srv.tables.assignments srv.tables.items
      ∙ any-ext _ _ srv.tables.items (λ item.
        any-ext _ _ srv.tables.assignments (λ pa.
          regroup (item.id == pa.collection_item_id) (pa.collection_item_id == item.id)
            (item.collection_id == c) (is_live_item srv.tables item)
            (pa.user_id == fs.user_id && has_voice srv.tables pa)
            (==_sym item.id pa.collection_item_id))
        ∙ any-and (item.collection_id == c) _ srv.tables.assignments
        ∙ ap (λ b. (item.collection_id == c) && b)
            (any-and (is_live_item srv.tables item) _ srv.tables.assignments))
    where
      regroup : (e f c l w : Bool) → e ≡ f → (e && (c && (l && w))) ≡ (c && (l && (f && w)))
      regroup e true c l w h = rw h refl
      regroup e false c l w h = rw h (ground arith)

  listed_collection :
      (org_id : ℕ) (vis : Visibility) (c : Text)
      → has_entry c
          (slug_dirs srv fs (visible_collection_slugs srv.collate srv.tables org_id fs.user_id vis))
        ≡ holds_at
            (find (is_collection_at org_id c) srv.tables.collections)
            (λ r. is_staff_view vis || has_assignment_in_collection srv.tables r.id fs.user_id)
  unfolding visible_collection_slugs is_staff_view
  listed_collection org_id staff c =
      has_entry-slug_dirs c _
      ∙ any-order_by (λ t. text_eq t c) srv.collate _
      ∙ ap (λ rows. any (λ t. text_eq t c) (map (λ (r : Collection). r.slug) rows))
          (keep-all (is_collection_in org_id) srv.tables.collections)
      ∙ any-slugs (λ (r : Collection). r.slug) (is_collection_in org_id) (λ _. true) c
          srv.tables.collections (slugs.collections org_id)
  listed_collection org_id restricted c =
      has_entry-slug_dirs c _
      ∙ any-order_by (λ t. text_eq t c) srv.collate _
      ∙ any-distinct c _
      ∙ any-slugs (λ (r : Collection). r.slug) (is_collection_in org_id)
          (has_played_item srv.tables fs.user_id) c srv.tables.collections
          (slugs.collections org_id)
      ∙ ap (holds_at (find (is_collection_at org_id c) srv.tables.collections))
          (fun_ext λ (r : Collection). sym (played_iff r.id))

  pub collection_agrees :
      (o c : Text)
      → lists (list srv fs (collections_root o)) c ≡ is_ok (stat srv fs (collection o c))
  unfolding list stat resolve_collection resolve_collection_scoped collection_id_by_slug
  collection_agrees o c = elim (Option-cases (resolve_org_visibility srv.tables o fs.user_id)) [
    | inl e ↦ rw e refl
    | inr ((org_id, vis), e) ↦ rw e (
        listed_collection org_id vis c
        ∙ sym (
            is_ok-checked vis (find (is_collection_at org_id c) srv.tables.collections) (λ r. r.id)
              (λ i. has_assignment_in_collection srv.tables i fs.user_id) (λ i. (org_id, i, vis)))
        ∙ sym (is_ok-as_dir srv fs _))
  ]
