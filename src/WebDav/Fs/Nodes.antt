-- ===== src/WebDav/Fs/Nodes.antt =====
-- lied/src/webdav/fs.rs: the metadata of a place in the tree.
use lied.Prelude.{
  ℕ, not, ◌&&◌, Option, none, some, [], ◌∷◌, ◌++◌, Result, ok, err, ◌>>=◌, ◌>>◌, guard,
}
use lied.Prelude.Text.{Text, text_eq}
use lied.Storage
use lied.Storage.{StorageError, is_nil}
use lied.Domain.File.{File, find_by_location}
use lied.Domain.File.Name.{format_and_ext_for_mime, derived_key}
use lied.Domain.File.Slugs.{resolve_path_slugs}
use lied.WebDav.Path.{
  ResolvedPath, root, orgs_root, users_root, org, arrangements_root, collections_root, user_home,
  library_root, arrangement, score_dir, voices_dir, collection, score_file, voice, annotations_dir,
  voice_file, annotations_user_dir, annotation_file, collection_item_dir, collection_score_dir,
  collection_voices_dir, collection_score_file, collection_voice, collection_voice_file,
  library_entry,
}
use lied.WebDav.Access.{Visibility, is_staff_view, find_org_id}
use lied.WebDav.Fs.{
  FsError, not_found, general_failure, LiedFs, FsResult, ok_or, resolve_arr, resolve_voice,
  resolve_collection, resolve_collection_item, resolve_collection_voice,
}
use lied.Storage.Pages.{DirListing}
use lied.WebDav.Fs.Objects.{
  LiedMeta, ObjectHead, Server, annotation_key, dir_meta, file_meta, library_key, slot_named,
  tree_of,
}

module _ (srv : Server) (fs : LiedFs) where
  abbrev pub head_or : StorageError → FsError
  head_or Storage.StorageError.not_found = not_found
  head_or e = general_failure

  abbrev pub stat_head : Result StorageError ObjectHead → FsResult LiedMeta
  stat_head (ok h) = ok (file_meta h.size h.modified)
  stat_head (err e) = err (head_or e)

  unfoldable pub stat_object : Text → FsResult LiedMeta
  stat_object key = stat_head (srv.objects.head_object key)

  -- The object of a row may not be there yet.
  abbrev pub stat_row_head : File → Result StorageError ObjectHead → FsResult LiedMeta
  stat_row_head row (ok h) = ok (file_meta h.size h.modified)
  stat_row_head row (err Storage.StorageError.not_found) = ok (file_meta 0 (some row.updated_at))
  stat_row_head row (err e) = err general_failure

  unfoldable pub stat_object_for_row : File → FsResult LiedMeta
  unfolding resolve_path_slugs format_and_ext_for_mime derived_key
  stat_object_for_row row = do
    slugs ←
        ok_or (resolve_path_slugs (tree_of srv.tables) row.arrangement_id row.voice_id) not_found
    (_, ext) ← ok_or (format_and_ext_for_mime row.mime_type) not_found
    stat_row_head row (
        srv.objects.head_object
          (derived_key slugs.org_slug slugs.arrangement_slug slugs.voice_slug row.name ext))

  unfoldable pub find_row : ℕ → Option ℕ → Text → FsResult File
  unfolding slot_named find_by_location
  find_row arr_id voice_id filename = do
    (slot, _) ← slot_named arr_id voice_id filename not_found
    ok_or (find_by_location slot srv.files) not_found

  unfoldable pub stat_org_file : ℕ → Option ℕ → Text → FsResult LiedMeta
  unfolding find_row stat_object_for_row
  stat_org_file arr_id voice_id filename = find_row arr_id voice_id filename >>= stat_object_for_row

  -- The row's key and its data, for a read.
  unfoldable pub org_file_key :
      Text → Text → Option Text → ℕ → Option ℕ → Text → FsResult (Text × LiedMeta)
  unfolding find_row format_and_ext_for_mime derived_key stat_object_for_row
  org_file_key o a voice_slug arr_id voice_id filename = do
    row ← find_row arr_id voice_id filename
    (_, ext) ← ok_or (format_and_ext_for_mime row.mime_type) not_found
    let key = derived_key o a voice_slug row.name ext
    meta ← stat_object_for_row row
    ok (key, meta)

  -- The private library is the owner's alone.
  unfoldable pub require_own_library : Text → FsResult (Unit {0})
  unfolding text_eq
  require_own_library user = guard (text_eq user fs.user_slug) not_found

  abbrev pub require_staff : Visibility → FsResult (Unit {0})
  require_staff vis = guard (is_staff_view vis) not_found

  abbrev pub as_dir {ℓ} : {A : Type ℓ} → FsResult A → FsResult LiedMeta
  as_dir r = r >>= λ _. ok dir_meta

  abbrev library_dir :
      Result StorageError ObjectHead → Result StorageError DirListing → FsResult LiedMeta
  library_dir (ok marker) listing = ok dir_meta
  library_dir (err e) (err e') = err general_failure
  library_dir (err e) (ok listing) =
      guard (not (is_nil listing.objects && is_nil listing.dirs)) not_found >> ok dir_meta

  -- An object, or else a directory with its marker or with something below it.
  abbrev library_node : Text → Result StorageError ObjectHead → FsResult LiedMeta
  library_node key (ok h) = ok (file_meta h.size h.modified)
  library_node key (err e) =
      library_dir (srv.objects.head_object (key ++ b'/' ∷ []))
        (srv.objects.list_objects (key ++ b'/' ∷ []))

  unfoldable pub stat : ResolvedPath → FsResult LiedMeta
  unfolding find_org_id is_staff_view resolve_arr resolve_voice stat_org_file stat_object
      annotation_key resolve_collection resolve_collection_item resolve_collection_voice
      require_own_library library_key
  stat root = ok dir_meta
  stat orgs_root = ok dir_meta
  stat users_root = ok dir_meta
  stat (org o) = as_dir (ok_or (find_org_id o srv.tables.organizations) not_found)
  stat (arrangements_root o) = as_dir (ok_or (find_org_id o srv.tables.organizations) not_found)
  stat (arrangement o a) = as_dir (resolve_arr srv.tables fs o a)
  stat (voices_dir o a) = as_dir (resolve_arr srv.tables fs o a)
  stat (score_dir o a) = do (_, _, vis) ← resolve_arr srv.tables fs o a; as_dir (require_staff vis)
  stat (voice o a v) = as_dir (resolve_voice srv.tables fs o a v)
  stat (annotations_dir o a v) = as_dir (resolve_voice srv.tables fs o a v)
  stat (annotations_user_dir o a v u) = as_dir (resolve_voice srv.tables fs o a v)
  stat (score_file o a file) = do
    (_, arr_id, vis) ← resolve_arr srv.tables fs o a
    require_staff vis
    stat_org_file arr_id none file
  stat (voice_file o a v file) = do
    (_, arr_id, voice_id, _) ← resolve_voice srv.tables fs o a v
    stat_org_file arr_id (some voice_id) file
  stat (annotation_file o a v user file) = do
    _ ← resolve_voice srv.tables fs o a v
    stat_object (annotation_key o a v user file)
  stat (collections_root o) = as_dir (ok_or (find_org_id o srv.tables.organizations) not_found)
  stat (collection o c) = as_dir (resolve_collection srv.tables fs o c)
  stat (collection_item_dir o c i s) = as_dir (resolve_collection_item srv.tables fs o c i s)
  stat (collection_score_dir o c i s) = do
    (_, _, _, _, _, vis) ← resolve_collection_item srv.tables fs o c i s
    as_dir (require_staff vis)
  stat (collection_voices_dir o c i s) = as_dir (resolve_collection_item srv.tables fs o c i s)
  stat (collection_voice o c i s v) = as_dir (resolve_collection_voice srv.tables fs o c i s v)
  stat (collection_score_file o c i s file) = do
    (_, _, _, arr_id, _, vis) ← resolve_collection_item srv.tables fs o c i s
    require_staff vis
    stat_org_file arr_id none file
  stat (collection_voice_file o c i s v file) = do
    (_, _, _, arr_id, _, voice_id) ← resolve_collection_voice srv.tables fs o c i s v
    stat_org_file arr_id (some voice_id) file
  stat (user_home user) = as_dir (require_own_library user)
  stat (library_root user) = as_dir (require_own_library user)
  stat (library_entry user rel) = do
    require_own_library user
    library_node (library_key user rel) (srv.objects.head_object (library_key user rel))
