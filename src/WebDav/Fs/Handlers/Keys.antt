-- ===== src/WebDav/Fs/Handlers/Keys.antt =====
-- lied/src/webdav/fs.rs: where a request can write.
use lied.Prelude.{
  ℕ, ◌≡◌, refl, ap, subst, inl, inr, All, true, Option, none, some, List, [], ◌∷◌, Result, ok,
  Bool-cases,
}
use lied.Prelude.Text.{Text, text_eq→eq}
use lied.Storage.{StorageError}
use lied.Domain.File.{Slot}
use lied.Domain.File.Name.{derived_key, split_filename, mime_for_ext, format_and_ext_for_mime}
use lied.WebDav.Path.{ResolvedPath, score_file, voice_file, annotation_file, library_entry, parse}
use lied.WebDav.Path.Safety.{names, IsSafe, parse-IsSafe}
use lied.WebDav.Fs.{
  LiedFs, ok_or, not_found, forbidden, resolve_voice, resolve_arr_for_write, voice_id_by_slug,
}
use lied.WebDav.Fs.Results.{bind-ok, ok_or-ok, guard-ok}
use lied.WebDav.Fs.Listings.{is_ok}
use lied.WebDav.Fs.Objects.{Server, annotation_key, library_key}
use lied.WebDav.Fs.Nodes.{require_own_library}
use lied.WebDav.Fs.Reads.{open_read}
use lied.WebDav.Fs.Write.{
  WriteTarget, org_file, annotation, library, resolve_write_target, org_write_target,
  require_author, mime_of_name, last_name,
}
use lied.WebDav.Fs.Permissions.{role_at, edits_files, may_write, may_write-IsRefused}
use lied.WebDav.Fs.Buffer.{writing, WriteFile, open_file}
use lied.Prelude.Utf8.{is_utf8}
use lied.WebDav.Fs.Handlers.{OpenOptions, is_write, parse_path, open_write, dav_open}

-- The slug of a voice, if there is one.
abbrev pub slugs_of : Option Text → List Text
slugs_of none = []
slugs_of (some v) = v ∷ []

module _ (srv : Server) (fs : LiedFs) where
  -- The keys that a user may write: below the own library, among the own annotations of a voice
  -- that is seen, or the derived key of a file in an organization where the user edits files.
  pub data IsOwn : WriteTarget → Type 0 where
    own_library :
        (rel : List Text) (key mime : Text)
        → All IsSafe rel
        → key ≡ library_key fs.user_slug rel
        → IsOwn (library key mime)
    own_annotation :
        (o a v file key mime user : Text) (org_id voice_id : ℕ)
        → All IsSafe (o ∷ a ∷ v ∷ file ∷ [])
        → is_ok (resolve_voice srv.tables fs o a v) ≡ true
        → key ≡ annotation_key o a v fs.user_slug file
        → IsOwn (annotation org_id voice_id user file key mime)
    edited_file :
        (o a : Text) (voice : Option Text) (slot : Slot) (ext key mime : Text) (org_id : ℕ)
        → All IsSafe (o ∷ a ∷ slugs_of voice)
        → edits_files (role_at srv.tables fs.user_id o) ≡ true
        → key ≡ derived_key o a voice slot.name ext
        → IsOwn (org_file org_id slot mime key)

  -- What is opened may be written.
  may_write-of_ok :
      (p : ResolvedPath) {t : WriteTarget}
      → resolve_write_target srv fs p ≡ ok t
      → may_write srv fs p ≡ true
  may_write-of_ok p e = elim (Bool-cases (may_write srv fs p)) [
    | inl h ↦ h
    | inr h ↦
        let refused = (may_write-IsRefused srv fs p h).write in
        let refused' = rw e at refused in absurd (cc)
  ]

  org_write_target-IsOwn :
      (org_id : ℕ) (o a : Text) (voice : Option Text) (arr_id : ℕ) (voice_id : Option ℕ)
      (filename : Text) {t : WriteTarget}
      → All IsSafe (o ∷ a ∷ slugs_of voice)
      → edits_files (role_at srv.tables fs.user_id o) ≡ true
      → org_write_target srv fs org_id o a voice arr_id voice_id filename ≡ ok t
      → IsOwn t
  unfolding org_write_target
  org_write_target-IsOwn org_id o a voice arr_id voice_id filename {t} safe edits e =
      let (name, e1, k1) = bind-ok (ok_or (split_filename filename) forbidden) _ e in
      let (mime, e2, k2) = bind-ok (ok_or (mime_for_ext name.1) forbidden) _ k1 in
      let (pair, e3, k3) = bind-ok (ok_or (format_and_ext_for_mime mime) forbidden) _ k2 in
      let slot : Slot = record {
        arrangement_id = arr_id;
        voice_id = voice_id;
        name = name.0;
        format = pair.0;
      } in
      let same : org_file org_id slot mime (derived_key o a voice name.0 pair.1) ≡ t = cc in
      subst IsOwn same (edited_file o a voice slot pair.1 _ mime org_id safe edits refl)

  resolve_write_target-IsOwn :
      (p : ResolvedPath) {t : WriteTarget}
      → All IsSafe (names p)
      → resolve_write_target srv fs p ≡ ok t
      → IsOwn t
  unfolding resolve_write_target names may_write require_own_library
  resolve_write_target-IsOwn (score_file o a file) (so, (sa, _)) e =
      let (r, e1, k1) = bind-ok (resolve_arr_for_write srv.tables fs o a) _ e in
      org_write_target-IsOwn r.0 o a none r.1 none file (so, (sa, tt))
        (may_write-of_ok (score_file o a file) e) k1
  resolve_write_target-IsOwn (voice_file o a v file) (so, (sa, (sv, _))) e =
      let (r, e1, k1) = bind-ok (resolve_arr_for_write srv.tables fs o a) _ e in
      let (voice_id, e2, k2) = bind-ok (ok_or (voice_id_by_slug srv.tables r.1 v) not_found) _ k1 in
      org_write_target-IsOwn r.0 o a (some v) r.1 (some voice_id) file (so, (sa, (sv, tt)))
        (may_write-of_ok (voice_file o a v file) e) k2
  resolve_write_target-IsOwn (annotation_file o a v user file) {t} (so, (sa, (sv, (su, (sf, _)))))
        e =
      let (u, e1, k1) = bind-ok (require_author srv fs user) _ e in
      let (r, e2, k2) = bind-ok (resolve_voice srv.tables fs o a v) _ k1 in
      let own : user ≡ fs.user_slug = text_eq→eq user fs.user_slug (guard-ok _ _ e1) in
      let same : annotation r.0 r.2 user file (annotation_key o a v user file) (mime_of_name file)
          ≡ t =
        cc in
      subst IsOwn same (
        own_annotation o a v file _ _ _ _ _ (so, (sa, (sv, (sf, tt)))) (rw e2 refl)
          (ap (λ w. annotation_key o a v w file) own))
  resolve_write_target-IsOwn (library_entry user rel) {t} (_, safe) e =
      let (u, e1, k1) = bind-ok (require_own_library srv fs user) _ e in
      let own : user ≡ fs.user_slug = text_eq→eq user fs.user_slug (guard-ok _ _ e1) in
      let same : library (library_key user rel) (mime_of_name (last_name rel)) ≡ t = cc in
      subst IsOwn same (own_library rel _ _ safe (ap (λ w. library_key w rel) own))
  resolve_write_target-IsOwn _ safe e = absurd (cc)

  parse_path-IsSafe :
      (path : Text) {p : ResolvedPath} → parse_path path ≡ ok p → All IsSafe (names p)
  unfolding parse_path
  parse_path-IsSafe path {p} e = elim (Bool-cases (is_utf8 path)) [
    | inl y ↦ parse-IsSafe path p (ok_or-ok (parse path) not_found (rw y at e))
    | inr n ↦ let e' = rw n at e in absurd (cc)
  ]

  -- Whatever the bytes of a request path, a file that is opened for writing has a key below the
  -- user's own library, or one of the user's own annotations on a voice that the user sees, or the
  -- derived key of a file in an organization where the user's role edits files. The names in the
  -- key, but that of the file in the last case, are neither empty nor `.` nor `..`.
  pub dav_open-IsOwn :
      (get_object : Text → Result StorageError Text) (options : OpenOptions) (path : Text)
      {file : WriteFile}
      → dav_open srv fs get_object options path ≡ ok (writing file)
      → IsOwn file.target
  unfolding dav_open parse_path open_write open_file
  dav_open-IsOwn get_object options path {file} e =
      let (p, e1, k1) = bind-ok (parse_path path) _ e in
      elim (Bool-cases (is_write options)) [
        | inr n ↦
            let k1' = rw n at k1 in
            let (answer, e2, k2) = bind-ok (open_read srv fs get_object p) _ k1' in absurd (cc)
        | inl y ↦
            let k1' = rw y at k1 in
            let (target, e2, k2) = bind-ok (resolve_write_target srv fs p) _ k1' in
            let same : target ≡ file.target = cc in
            subst IsOwn same (resolve_write_target-IsOwn p (parse_path-IsSafe path e1) e2)
      ]
