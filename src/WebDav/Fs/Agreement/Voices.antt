-- ===== src/WebDav/Fs/Agreement/Voices.antt =====
-- lied/src/webdav/fs.rs: the voices of an arrangement and of an item.
use lied.Prelude.{
  ℕ, ◌≡◌, refl, sym, ◌∙◌, ap, Bool, true, false, ◌&&◌, ◌||◌, map, inl, inr, ok, err, ◌>>=◌, find,
  keep, arith, Result-cases,
}
use mathlib.Core.Path.{fun_ext}
use lied.Prelude.Int.{ℤ}
use lied.Prelude.Text.{Text, text_eq}
use lied.Sql.{order_by}
use lied.Domain.Entities.{Voice}
use lied.WebDav.Path.{voices_dir, voice, collection_voices_dir, collection_voice}
use lied.WebDav.Access.{Visibility, staff, restricted, is_staff_view, has_assignment_on_item_voice}
use lied.WebDav.Access.Arrangements.{has_assignment_on_voice}
use lied.WebDav.Access.Phantoms.{any-ext}
use lied.WebDav.Access.Narrowing.{any-order_by}
use lied.WebDav.Fs.{
  FsResult, FsError, LiedFs, voice_id_by_slug, is_voice_in, is_voice_at, is_assigned_voice,
  is_assigned_on, resolve_arr, resolve_voice, visible_voices, visible_item_voices,
  resolve_collection, resolve_collection_item, resolve_collection_item_scoped,
  resolve_collection_voice,
}
use lied.WebDav.Fs.Objects.{Server, LiedDirEntry, dir_entry}
use lied.WebDav.Fs.Nodes.{stat}
use lied.WebDav.Fs.Directories.{list, voice_dirs}
use lied.WebDav.Fs.Listings.{has_entry, lists, is_ok, any-map, holds_at, any-slugs}
use lied.WebDav.Fs.Scopes.{resolve_collection_voice-checked, item-unchecked}
use lied.WebDav.Fs.Agreement.Slugs.{HasSlugs, is_ok-as_dir, is_ok-checked, keep-all, no_voice}

module _ (srv : Server) (fs : LiedFs) (slugs : HasSlugs srv.tables) where
  abbrev slug_of : Voice → Text
  slug_of v = v.slug

  abbrev by_slug : Voice → Voice → Bool
  by_slug v w = srv.collate v.slug w.slug

  -- The names of voices that a query selects.
  listed_voices :
      (arr_id : ℕ) (q : Voice → Bool) (v : Text)
      → has_entry v (
          voice_dirs srv fs (
            map
              (λ (w : Voice). (w.id, w.slug))
              (order_by by_slug (keep (λ w. is_voice_in arr_id w && q w) srv.tables.voices))))
        ≡ holds_at (find (is_voice_at arr_id v) srv.tables.voices) q
  listed_voices arr_id q v =
      let rows = keep (λ w. is_voice_in arr_id w && q w) srv.tables.voices in
      any-map (λ (w : ℕ × Text). dir_entry w.1) (λ (e : LiedDirEntry). text_eq e.name v)
        (map (λ (w : Voice). (w.id, w.slug)) (order_by by_slug rows))
      ∙ any-map (λ (w : Voice). (w.id, w.slug)) (λ (w : ℕ × Text). text_eq w.1 v)
          (order_by by_slug rows)
      ∙ any-order_by (λ w. text_eq w.slug v) by_slug rows
      ∙ sym (any-map slug_of (λ t. text_eq t v) rows)
      ∙ any-slugs slug_of (is_voice_in arr_id) q v srv.tables.voices (slugs.voices arr_id)

  -- The same for a query that selects all.
  listed_all :
      (arr_id : ℕ) (v : Text)
      → has_entry v (
          voice_dirs srv fs (
            map
              (λ (w : Voice). (w.id, w.slug))
              (order_by by_slug (keep (is_voice_in arr_id) srv.tables.voices))))
        ≡ holds_at (find (is_voice_at arr_id v) srv.tables.voices) (λ _. true)
  listed_all arr_id v =
      ap
        (λ rows.
          has_entry v
            (voice_dirs srv fs (map (λ (w : Voice). (w.id, w.slug)) (order_by by_slug rows))))
        (keep-all (is_voice_in arr_id) srv.tables.voices)
      ∙ listed_voices arr_id (λ _. true) v

  listed_voice :
      (arr_id : ℕ) (vis : Visibility) (v : Text)
      → has_entry v (voice_dirs srv fs (visible_voices srv.tables fs srv.collate arr_id vis))
        ≡ holds_at
            (find (is_voice_at arr_id v) srv.tables.voices)
            (λ r. is_staff_view vis || has_assignment_on_voice srv.tables r.id fs.user_id)
  unfolding visible_voices is_staff_view
  listed_voice arr_id staff v = listed_all arr_id v
  listed_voice arr_id restricted v =
      listed_voices arr_id (is_assigned_voice srv.tables fs) v
      ∙ ap (holds_at (find (is_voice_at arr_id v) srv.tables.voices))
          (fun_ext λ (r : Voice). on_voice r)
    where
      on_voice :
          (r : Voice)
          → is_assigned_voice srv.tables fs r ≡ has_assignment_on_voice srv.tables r.id fs.user_id
      on_voice r =
          unfold has_assignment_on_voice in any-ext _ _ srv.tables.assignments (λ pa. ground arith)

  pub voice_agrees :
      (o a v : Text) → lists (list srv fs (voices_dir o a)) v ≡ is_ok (stat srv fs (voice o a v))
  unfolding list stat resolve_voice voice_id_by_slug
  voice_agrees o a v = elim (Result-cases (resolve_arr srv.tables fs o a)) [
    | inr (x, e) ↦ rw e refl
    | inl ((org_id, arr_id, vis), e) ↦ rw e (
        listed_voice arr_id vis v
        ∙ sym (
            is_ok-checked vis (find (is_voice_at arr_id v) srv.tables.voices) (λ r. r.id)
              (λ i. has_assignment_on_voice srv.tables i fs.user_id)
              (λ i. (org_id, arr_id, i, vis)))
        ∙ sym (is_ok-as_dir srv fs _))
  ]

  listed_item_voice :
      (item_id arr_id : ℕ) (vis : Visibility) (v : Text)
      → has_entry v
          (voice_dirs srv fs (visible_item_voices srv.tables fs srv.collate item_id arr_id vis))
        ≡ holds_at (find (is_voice_at arr_id v) srv.tables.voices) (λ r.
          is_staff_view vis || has_assignment_on_item_voice srv.tables item_id r.id fs.user_id)
  unfolding visible_item_voices is_staff_view
  listed_item_voice item_id arr_id staff v = listed_all arr_id v
  listed_item_voice item_id arr_id restricted v =
      listed_voices arr_id (is_assigned_on srv.tables fs item_id) v
      ∙ ap (holds_at (find (is_voice_at arr_id v) srv.tables.voices))
          (fun_ext λ (r : Voice). on_voice r)
    where
      on_voice :
          (r : Voice)
          → is_assigned_on srv.tables fs item_id r
            ≡ has_assignment_on_item_voice srv.tables item_id r.id fs.user_id
      on_voice r =
          unfold has_assignment_on_item_voice in
          any-ext _ _ srv.tables.assignments (λ pa. ground arith)

  pub item_voice_agrees :
      (o c : Text) (i : ℤ) (s v : Text)
      → lists (list srv fs (collection_voices_dir o c i s)) v
        ≡ is_ok (stat srv fs (collection_voice o c i s v))
  unfolding list stat
  item_voice_agrees o c i s v =
      let whole = resolve_collection_voice srv.tables fs o c i s v in
      let checked = resolve_collection_voice-checked srv.tables fs o c i s v in
      elim (Result-cases (resolve_collection_item srv.tables fs o c i s)) [
        | inr (x, e) ↦ rw e (
            refused (resolve_collection srv.tables fs o c) x
            ∙ ap is_ok (rw e at checked)
            ∙ sym (is_ok-as_dir srv fs whole))
        | inl ((org_id, coll_id, item_id, arr_id, slug, vis), e) ↦
            let unchecked = item-unchecked srv.tables fs o c i s v e in
            rw e (
              listed_item_voice item_id arr_id vis v
              ∙ tail org_id coll_id item_id arr_id slug vis unchecked
              ∙ sym (is_ok-as_dir srv fs whole))
      ]
    where
      refused :
          (r : FsResult (ℕ × ℕ × Visibility)) (x : FsError) → false ≡ is_ok (r >>= λ _. no_voice x)
      refused (ok a) x = refl
      refused (err y) x = refl

      tail :
          (org_id coll_id item_id arr_id : ℕ) (slug : Text) (vis : Visibility)
          → resolve_collection_item_scoped srv.tables fs o c i s false
            ≡ ok (org_id, coll_id, item_id, arr_id, slug, vis)
          → holds_at (find (is_voice_at arr_id v) srv.tables.voices) (λ r.
            is_staff_view vis || has_assignment_on_item_voice srv.tables item_id r.id fs.user_id)
            ≡ is_ok (resolve_collection_voice srv.tables fs o c i s v)
      tail org_id coll_id item_id arr_id slug vis e =
          unfold resolve_collection_voice voice_id_by_slug in
          rw e (
            sym (
              is_ok-checked vis (find (is_voice_at arr_id v) srv.tables.voices) (λ r. r.id)
                (λ id. has_assignment_on_item_voice srv.tables item_id id fs.user_id)
                (λ id. (org_id, coll_id, item_id, arr_id, slug, id))))
