-- ===== src/WebDav/Fs.antt =====
-- lied/src/webdav/fs.rs: the file system that an authenticated user sees. A database that cannot be
-- reached is not modelled: a query gives its rows.
pub mod Results
pub mod Items
pub mod Scopes
pub mod Listings
pub mod Agreement
pub mod Objects
pub mod Nodes
pub mod Directories
pub mod Reads
pub mod Write
pub mod Permissions
pub mod Commit
pub mod Names
pub mod Buffer
pub mod Handlers
mod Examples
use lied.Prelude.{
  ℕ, ◌*◌, Bool, true, false, not, ◌&&◌, ◌||◌, Option, none, some, List, [], ◌∷◌, map, Result, ok,
  err, ◌>>=◌, ◌>>◌, guard, any, find, keep, ◌==◌, is_none, if◌then◌else◌,
}
use lied.Prelude.Int.{ℤ, eq_ℤ}
use lied.Prelude.Text.{Text, text_eq}
use lied.Sql.{order_by}
use lied.Domain.CollectionItem.{CollectionItem}
use lied.Domain.Entities.{Collection, Arrangement, Voice}
use lied.Domain.Membership.Roles.{Role, owner, archivist, conductor, musician}
use lied.WebDav.Access.{
  Tables, Visibility, staff, restricted, is_staff_view, role_in_org, resolve_org_visibility,
  is_arrangement_of, has_assignment_in_collection, has_assignment_on_item,
  has_assignment_on_item_voice,
}
use lied.WebDav.Access.Arrangements.{
  has_assignment_on_arrangement, has_assignment_on_voice, is_on_programme, is_arrangement_in,
  is_collection_in,
}

-- The errors of dav-server that are used.
pub data FsError : Type 0 where
  not_found forbidden too_large general_failure : FsError

-- The user of the request.
pub record LiedFs : Type 0 where
  pub user_id : ℕ
  pub user_slug : Text
  pub max_upload_bytes : ℕ
  pub request_id : Option ℕ

abbrev pub FsResult {ℓ} : Type ℓ → Type ℓ
FsResult A = Result FsError A

abbrev pub ok_or {ℓ} : {A : Type ℓ} → Option A → FsError → FsResult A
ok_or none e = err e
ok_or (some a) e = ok a

-- The ids of live rows by their slug.
abbrev pub is_arrangement_at : ℕ → Text → Arrangement → Bool
is_arrangement_at org_id slug a = is_arrangement_in org_id a && text_eq a.slug slug

unfoldable pub arr_id_by_slug : Tables → ℕ → Text → Option ℕ
unfolding text_eq
arr_id_by_slug db org_id slug = elim (find (is_arrangement_at org_id slug) db.arrangements) [
  | none ↦ none
  | some a ↦ some a.id
]

abbrev pub is_voice_in : ℕ → Voice → Bool
is_voice_in arr_id v = v.arrangement_id == arr_id && is_none v.deleted_at

abbrev pub is_voice_at : ℕ → Text → Voice → Bool
is_voice_at arr_id slug v = is_voice_in arr_id v && text_eq v.slug slug

unfoldable pub voice_id_by_slug : Tables → ℕ → Text → Option ℕ
unfolding text_eq
voice_id_by_slug db arr_id slug = elim (find (is_voice_at arr_id slug) db.voices) [
  | none ↦ none
  | some v ↦ some v.id
]

abbrev pub is_collection_at : ℕ → Text → Collection → Bool
is_collection_at org_id slug c = is_collection_in org_id c && text_eq c.slug slug

unfoldable pub collection_id_by_slug : Tables → ℕ → Text → Option ℕ
unfolding text_eq
collection_id_by_slug db org_id slug = elim (find (is_collection_at org_id slug) db.collections) [
  | none ↦ none
  | some c ↦ some c.id
]

-- `if !vis.is_staff() && !assigned { return Err(NotFound) }`
abbrev pub require_assignment : Visibility → Bool → FsResult (Unit {0})
require_assignment vis assigned = guard (is_staff_view vis || assigned) not_found

-- `matches!(role, Some(Role::Owner | Role::Archivist))`
abbrev pub writes_files : Option Role → Bool
writes_files (some owner) = true
writes_files (some archivist) = true
writes_files (some conductor) = false
writes_files (some musician) = false
writes_files none = false

module _ (db : Tables) (fs : LiedFs) where
  unfoldable pub resolve_arr : Text → Text → FsResult (ℕ × ℕ × Visibility)
  unfolding is_staff_view resolve_org_visibility arr_id_by_slug has_assignment_on_arrangement
  resolve_arr org arr = do
    (org_id, vis) ← ok_or (resolve_org_visibility db org fs.user_id) not_found
    arr_id ← ok_or (arr_id_by_slug db org_id arr) not_found
    require_assignment vis (has_assignment_on_arrangement db arr_id fs.user_id)
    ok (org_id, arr_id, vis)

  unfoldable pub resolve_arr_for_write : Text → Text → FsResult (ℕ × ℕ)
  unfolding resolve_arr role_in_org
  resolve_arr_for_write org arr = do
    (org_id, arr_id, _) ← resolve_arr org arr
    guard (writes_files (role_in_org org_id fs.user_id db.memberships)) forbidden
    ok (org_id, arr_id)

  unfoldable pub resolve_voice : Text → Text → Text → FsResult (ℕ × ℕ × ℕ × Visibility)
  unfolding resolve_arr voice_id_by_slug has_assignment_on_voice
  resolve_voice org arr voice = do
    (org_id, arr_id, vis) ← resolve_arr org arr
    voice_id ← ok_or (voice_id_by_slug db arr_id voice) not_found
    require_assignment vis (has_assignment_on_voice db voice_id fs.user_id)
    ok (org_id, arr_id, voice_id, vis)

  -- The joins behind a voice that a restricted user sees.
  abbrev pub is_assigned_voice : Voice → Bool
  is_assigned_voice v =
      any (λ pa. pa.voice_id == v.id && (pa.user_id == fs.user_id && is_on_programme db pa))
        db.assignments

  -- As ids are unique, `DISTINCT` leaves one row; `collate` orders the slugs.
  unfoldable pub visible_voices : (Text → Text → Bool) → ℕ → Visibility → List (ℕ × Text)
  unfolding order_by
  visible_voices collate arr_id staff =
      map (λ (v : Voice). (v.id, v.slug))
        (order_by (λ v w. collate v.slug w.slug) (keep (is_voice_in arr_id) db.voices))
  visible_voices collate arr_id restricted =
      map (λ (v : Voice). (v.id, v.slug))
        (order_by (λ v w. collate v.slug w.slug)
          (keep (λ v. is_voice_in arr_id v && is_assigned_voice v) db.voices))

  unfoldable pub resolve_collection_scoped : Text → Text → Bool → FsResult (ℕ × ℕ × Visibility)
  unfolding is_staff_view resolve_org_visibility collection_id_by_slug has_assignment_in_collection
  resolve_collection_scoped org coll check_assignment = do
    (org_id, vis) ← ok_or (resolve_org_visibility db org fs.user_id) not_found
    coll_id ← ok_or (collection_id_by_slug db org_id coll) not_found
    require_assignment vis
        (not check_assignment || has_assignment_in_collection db coll_id fs.user_id)
    ok (org_id, coll_id, vis)

  unfoldable pub resolve_collection : Text → Text → FsResult (ℕ × ℕ × Visibility)
  unfolding resolve_collection_scoped
  resolve_collection org coll = resolve_collection_scoped org coll true

  -- The first row of the join: `ci.collection_id = $1 AND ci.index = $2` and both live.
  unfoldable pub find_item : ℕ → ℤ → List CollectionItem → Option (CollectionItem × Arrangement)
  find_item coll_id index [] = none
  find_item coll_id index (item ∷ items) =
      let rest = find_item coll_id index items in
      if item.collection_id == coll_id && (eq_ℤ item.index index && is_none item.deleted_at)
      then elim (find (is_arrangement_of item) db.arrangements) [
        | none ↦ rest
        | some a ↦ some (item, a)
      ]
      else rest

  unfoldable pub resolve_collection_item_scoped :
      Text → Text → ℤ → Text → Bool → FsResult (ℕ × ℕ × ℕ × ℕ × Text × Visibility)
  unfolding resolve_collection_scoped find_item has_assignment_on_item text_eq
  resolve_collection_item_scoped org coll index arr_slug check_assignment = do
    (org_id, coll_id, vis) ← resolve_collection_scoped org coll false
    (item, a) ← ok_or (find_item coll_id index db.items) not_found
    guard (text_eq a.slug arr_slug) not_found
    require_assignment vis (not check_assignment || has_assignment_on_item db item.id fs.user_id)
    ok (org_id, coll_id, item.id, item.arrangement_id, a.slug, vis)

  unfoldable pub resolve_collection_item :
      Text → Text → ℤ → Text → FsResult (ℕ × ℕ × ℕ × ℕ × Text × Visibility)
  unfolding resolve_collection_item_scoped
  resolve_collection_item org coll index arr_slug =
      resolve_collection_item_scoped org coll index arr_slug true

  unfoldable pub resolve_collection_voice :
      Text → Text → ℤ → Text → Text → FsResult (ℕ × ℕ × ℕ × ℕ × Text × ℕ)
  unfolding resolve_collection_item_scoped voice_id_by_slug has_assignment_on_item_voice
  resolve_collection_voice org coll index arr_slug voice = do
    (org_id, coll_id, item_id, arr_id, slug, vis) ←
        resolve_collection_item_scoped org coll index arr_slug false
    voice_id ← ok_or (voice_id_by_slug db arr_id voice) not_found
    require_assignment vis (has_assignment_on_item_voice db item_id voice_id fs.user_id)
    ok (org_id, coll_id, item_id, arr_id, slug, voice_id)

  -- The join behind a voice that a restricted user sees in an item.
  abbrev pub is_assigned_on : ℕ → Voice → Bool
  is_assigned_on item_id v =
      any
        (λ pa.
          pa.voice_id == v.id && (pa.collection_item_id == item_id && pa.user_id == fs.user_id))
        db.assignments

  unfoldable pub visible_item_voices : (Text → Text → Bool) → ℕ → ℕ → Visibility → List (ℕ × Text)
  unfolding order_by
  visible_item_voices collate item_id arr_id staff =
      map (λ (v : Voice). (v.id, v.slug))
        (order_by (λ v w. collate v.slug w.slug) (keep (is_voice_in arr_id) db.voices))
  visible_item_voices collate item_id arr_id restricted =
      map (λ (v : Voice). (v.id, v.slug))
        (order_by (λ v w. collate v.slug w.slug)
          (keep (λ v. is_voice_in arr_id v && is_assigned_on item_id v) db.voices))
