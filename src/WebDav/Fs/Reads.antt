-- ===== src/WebDav/Fs/Reads.antt =====
-- lied/src/webdav/fs.rs: the object behind a file that is opened for reading.
use lied.Prelude.{none, some, Result, ok, err, ◌>>=◌, ◌>>◌}
use lied.Prelude.Text.{Text}
use lied.Storage.{StorageError}
use lied.WebDav.Path.{
  ResolvedPath, score_file, voice_file, annotation_file, collection_score_file,
  collection_voice_file, library_entry,
}
use lied.WebDav.Access.{is_staff_view}
use lied.WebDav.Fs.{
  forbidden, LiedFs, FsResult, resolve_arr, resolve_voice, resolve_collection_item,
  resolve_collection_voice,
}
use lied.WebDav.Fs.Objects.{LiedMeta, Server, annotation_key, library_key}
use lied.WebDav.Fs.Nodes.{require_own_library, require_staff, org_file_key, stat_object, head_or}

module _ (srv : Server) (fs : LiedFs) where
  unfoldable pub file_key_for_read : ResolvedPath → FsResult (Text × LiedMeta)
  unfolding resolve_arr resolve_voice resolve_collection_item resolve_collection_voice is_staff_view
      org_file_key stat_object require_own_library annotation_key library_key
  file_key_for_read (score_file o a file) = do
    (_, arr_id, vis) ← resolve_arr srv.tables fs o a
    require_staff srv fs vis
    org_file_key srv fs o a none arr_id none file
  file_key_for_read (voice_file o a v file) = do
    (_, arr_id, voice_id, _) ← resolve_voice srv.tables fs o a v
    org_file_key srv fs o a (some v) arr_id (some voice_id) file
  file_key_for_read (annotation_file o a v user file) = do
    _ ← resolve_voice srv.tables fs o a v
    let key = annotation_key o a v user file
    meta ← stat_object srv fs key
    ok (key, meta)
  file_key_for_read (library_entry user rel) = do
    require_own_library srv fs user
    let key = library_key user rel
    meta ← stat_object srv fs key
    ok (key, meta)
  file_key_for_read (collection_score_file o c i s file) = do
    (_, _, _, arr_id, slug, vis) ← resolve_collection_item srv.tables fs o c i s
    require_staff srv fs vis
    org_file_key srv fs o slug none arr_id none file
  file_key_for_read (collection_voice_file o c i s v file) = do
    (_, _, _, arr_id, slug, voice_id) ← resolve_collection_voice srv.tables fs o c i s v
    org_file_key srv fs o slug (some v) arr_id (some voice_id) file
  file_key_for_read _ = err forbidden

  abbrev fetched : LiedMeta → Result StorageError Text → FsResult (Text × LiedMeta)
  fetched meta (ok body) = ok (body, meta)
  fetched meta (err e) = err (head_or srv fs e)

  -- The data and the metadata of the open file; `get_object` is the storage's answer.
  unfoldable pub open_read :
      (Text → Result StorageError Text) → ResolvedPath → FsResult (Text × LiedMeta)
  unfolding file_key_for_read
  open_read get_object p = do (key, meta) ← file_key_for_read p; fetched meta (get_object key)
