-- ===== src/WebDav/Fs/Directories.antt =====
-- lied/src/webdav/fs.rs: what a directory lists.
use lied.Prelude.{
  ℕ, Bool, false, not, Option, none, some, List, [], ◌∷◌, ◌++◌, map, Result, ok, err, ◌>>=◌, ◌>>◌,
  keep, ◌==◌, if◌then◌else◌,
}
use lied.Prelude.Text.{Text, codes}
use lied.Storage.{StorageError}
use lied.Domain.File
use lied.Domain.File.{File, Slot, find_by_location}
use lied.Domain.File.Name.{format_and_ext_for_mime, webdav_filename, derived_key}
use lied.WebDav.Path.{
  ResolvedPath, root, orgs_root, users_root, org, arrangements_root, collections_root, user_home,
  library_root, arrangement, score_dir, voices_dir, collection, score_file, voice, annotations_dir,
  voice_file, annotations_user_dir, annotation_file, collection_item_dir, collection_score_dir,
  collection_voices_dir, collection_score_file, collection_voice, collection_voice_file,
  library_entry,
}
use lied.WebDav.Access.{
  Visibility, is_staff_view, find_org_id, resolve_org_visibility, visible_collection_items,
}
use lied.WebDav.Access.Arrangements.{
  visible_arrangement_slugs, visible_collection_slugs, visible_org_slugs,
}
use lied.WebDav.Fs.{
  not_found, forbidden, general_failure, LiedFs, FsResult, ok_or, resolve_arr, resolve_voice,
  visible_voices, resolve_collection, resolve_collection_item, resolve_collection_voice,
  visible_item_voices,
}
use lied.Storage.Pages.{DirListing, ListedObject}
use lied.WebDav.Fs.Objects.{
  LiedDirEntry, LiedMeta, ObjectHead, Server, annotations_prefix, basename, dir_entry, file_meta,
  item_name, library_key,
}
use lied.WebDav.Fs.Nodes.{require_own_library, require_staff}

abbrev no_ext : Option (Text × Text) → Text
no_ext none = []
no_ext (some (format, ext)) = ext

module _ (srv : Server) (fs : LiedFs) where
  -- A size that cannot be read does not fail the listing.
  abbrev best_effort : File → Result StorageError ObjectHead → LiedMeta
  best_effort f (ok h) = file_meta h.size h.modified
  best_effort f (err e) = file_meta 0 (some f.updated_at)

  abbrev pub file_key : Text → Text → Option Text → File → Text
  file_key o a voice_slug f =
      derived_key o a voice_slug f.name (no_ext (format_and_ext_for_mime f.mime_type))

  unfoldable pub entries_of : Text → Text → Option Text → List File → List LiedDirEntry
  unfolding webdav_filename derived_key format_and_ext_for_mime
  entries_of o a voice_slug [] = []
  entries_of o a voice_slug (f ∷ files) =
      let rest = entries_of o a voice_slug files in
      elim (webdav_filename f.name f.mime_type) [
        | none ↦ rest
        | some filename ↦
            record {
              name = filename;
              meta = best_effort f (srv.objects.head_object (file_key o a voice_slug f));
            }
            ∷ rest
      ]

  unfoldable pub file_entries : Text → Text → Option Text → ℕ → Option ℕ → List LiedDirEntry
  unfolding File.list entries_of
  file_entries o a voice_slug arr_id voice_id =
      entries_of o a voice_slug
        (File.list srv.tables.arrangements arr_id voice_id 10000 0 srv.files).0

  abbrev subdirs : List Text → List LiedDirEntry
  subdirs dirs = map (λ d. dir_entry (basename d)) dirs

  abbrev object_entry : ListedObject → LiedDirEntry
  object_entry o = record { name = basename o.key; meta = file_meta o.size o.modified }

  abbrev listed :
      Result StorageError DirListing
      → (DirListing → List LiedDirEntry)
      → FsResult (List LiedDirEntry)
  listed (ok l) f = ok (f l)
  listed (err e) f = err general_failure

  abbrev ends_in_slash : Text → Bool
  ends_in_slash [] = false
  ends_in_slash (c ∷ []) = c == b'/'
  ends_in_slash (c ∷ d ∷ s) = ends_in_slash (d ∷ s)

  -- An object that ends in `/` is the marker of a directory.
  unfoldable pub list_library : Text → FsResult (List LiedDirEntry)
  unfolding basename
  list_library prefix =
      listed (srv.objects.list_objects prefix)
        λ l. subdirs l.dirs ++ map object_entry (keep (λ o. not (ends_in_slash o.key)) l.objects)

  abbrev pub slug_dirs : List Text → List LiedDirEntry
  slug_dirs slugs = map dir_entry slugs

  abbrev pub voice_dirs : List (ℕ × Text) → List LiedDirEntry
  voice_dirs voices = map (λ v. dir_entry v.1) voices

  abbrev score_and_voices : Visibility → List LiedDirEntry
  score_and_voices vis =
      if is_staff_view vis
      then dir_entry (codes "score") ∷ dir_entry (codes "voices") ∷ []
      else dir_entry (codes "voices") ∷ []

  unfoldable pub list : ResolvedPath → FsResult (List LiedDirEntry)
  unfolding visible_org_slugs find_org_id is_staff_view resolve_org_visibility
      visible_arrangement_slugs visible_collection_slugs visible_collection_items resolve_arr
      resolve_voice visible_voices resolve_collection resolve_collection_item
      resolve_collection_voice visible_item_voices file_entries basename item_name
      require_own_library list_library library_key
  list root = ok (dir_entry (codes "orgs") ∷ dir_entry (codes "users") ∷ [])
  list orgs_root = ok (slug_dirs (visible_org_slugs srv.collate srv.tables fs.user_id))
  list (org o) = do
    _ ← ok_or (find_org_id o srv.tables.organizations) not_found
    ok (dir_entry (codes "arrangements") ∷ dir_entry (codes "collections") ∷ [])
  list (arrangements_root o) = do
    (org_id, vis) ← ok_or (resolve_org_visibility srv.tables o fs.user_id) not_found
    ok (slug_dirs (visible_arrangement_slugs srv.collate srv.tables org_id fs.user_id vis))
  list (arrangement o a) = do (_, _, vis) ← resolve_arr srv.tables fs o a; ok (score_and_voices vis)
  list (score_dir o a) = do
    (_, arr_id, vis) ← resolve_arr srv.tables fs o a
    require_staff srv fs vis
    ok (file_entries o a none arr_id none)
  list (voices_dir o a) = do
    (_, arr_id, vis) ← resolve_arr srv.tables fs o a
    ok (voice_dirs (visible_voices srv.tables fs srv.collate arr_id vis))
  list (voice o a v) = do
    (_, arr_id, voice_id, _) ← resolve_voice srv.tables fs o a v
    ok (file_entries o a (some v) arr_id (some voice_id) ++ dir_entry (codes "annotations") ∷ [])
  list (annotations_dir o a v) = do
    _ ← resolve_voice srv.tables fs o a v
    listed (srv.objects.list_objects (annotations_prefix o a v)) λ l. subdirs l.dirs
  list (annotations_user_dir o a v user) = do
    _ ← resolve_voice srv.tables fs o a v
    listed (srv.objects.list_objects (annotations_prefix o a v ++ user ++ b'/' ∷ []))
        λ l. map object_entry l.objects
  list (collections_root o) = do
    (org_id, vis) ← ok_or (resolve_org_visibility srv.tables o fs.user_id) not_found
    ok (slug_dirs (visible_collection_slugs srv.collate srv.tables org_id fs.user_id vis))
  list (collection o c) = do
    (_, coll_id, vis) ← resolve_collection srv.tables fs o c
    ok (
        map (λ i. dir_entry (item_name i.index i.arrangement_slug))
          (visible_collection_items srv.tables coll_id fs.user_id vis))
  list (collection_item_dir o c i s) = do
    (_, _, _, _, _, vis) ← resolve_collection_item srv.tables fs o c i s
    ok (score_and_voices vis)
  list (collection_score_dir o c i s) = do
    (_, _, _, arr_id, slug, vis) ← resolve_collection_item srv.tables fs o c i s
    require_staff srv fs vis
    ok (file_entries o slug none arr_id none)
  list (collection_voices_dir o c i s) = do
    (_, _, item_id, arr_id, _, vis) ← resolve_collection_item srv.tables fs o c i s
    ok (voice_dirs (visible_item_voices srv.tables fs srv.collate item_id arr_id vis))
  list (collection_voice o c i s v) = do
    (_, _, _, arr_id, slug, voice_id) ← resolve_collection_voice srv.tables fs o c i s v
    ok (file_entries o slug (some v) arr_id (some voice_id))
  list users_root = ok (dir_entry fs.user_slug ∷ [])
  list (user_home user) = do require_own_library srv fs user; ok (dir_entry (codes "library") ∷ [])
  list (library_root user) = do
    require_own_library srv fs user
    list_library (codes "users/" ++ user ++ codes "/library/")
  list (library_entry user rel) = do
    require_own_library srv fs user
    list_library (library_key user rel ++ b'/' ∷ [])
  list (score_file _ _ _) = err forbidden
  list (voice_file _ _ _ _) = err forbidden
  list (annotation_file _ _ _ _ _) = err forbidden
  list (collection_score_file _ _ _ _ _) = err forbidden
  list (collection_voice_file _ _ _ _ _ _) = err forbidden
