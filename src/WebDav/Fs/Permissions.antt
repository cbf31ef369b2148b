-- ===== src/WebDav/Fs/Permissions.antt =====
-- lied/src/webdav/fs.rs: who may write and remove.
use lied.Prelude.{
  ◌≡◌, refl, sym, ◌∙◌, ap, inl, inr, Bool-cases, Option-cases, Result-cases, ℕ, Bool, true, false,
  ◌&&◌, Option, none, some, ok, err, ◌>>=◌,
}
use lied.Prelude.Text.{Text, text_eq}
use lied.WebDav.Path.{
  ResolvedPath, root, orgs_root, users_root, org, score_file, voice_file, annotation_file,
  library_entry,
}
use lied.WebDav.Access.{Tables, Visibility, find_org_id, resolve_org_visibility}
use lied.WebDav.Fs.{
  FsError, not_found, forbidden, LiedFs, FsResult, ok_or, resolve_arr, resolve_voice,
}
use lied.WebDav.Fs.Objects.{Server}
use lied.Domain.Membership.Roles.{Role, owner, archivist, conductor, musician}
use lied.WebDav.Access.{role_in_org}
use lied.WebDav.Fs.{resolve_arr_for_write, writes_files, arr_id_by_slug, require_assignment}
use lied.WebDav.Fs.Nodes.{require_own_library}
use lied.WebDav.Fs.Listings.{is_ok}
use lied.WebDav.Fs.Results.{bind-ok, ok_or-ok}
use lied.WebDav.Access.Arrangements.{has_assignment_on_arrangement}
use lied.WebDav.Fs.Write.{Backend, Disk, resolve_write_target, remove}

-- The role that the permission matrix speaks of.
abbrev pub role_at : Tables → ℕ → Text → Option Role
role_at db user o = elim (find_org_id o db.organizations) [
  | none ↦ none
  | some org_id ↦ role_in_org org_id user db.memberships
]

-- The permission matrix for files.
abbrev pub edits_files : Option Role → Bool
edits_files none = false
edits_files (some owner) = true
edits_files (some archivist) = true
edits_files (some conductor) = false
edits_files (some musician) = false

module _ (srv : Server) (fs : LiedFs) where
  -- Files of arrangements are for those who edit them, annotations for their author, who has to see
  -- the voice, and a library for its owner. Nothing else is written through the file system.
  unfoldable pub may_write : ResolvedPath → Bool
  unfolding text_eq resolve_voice
  may_write (score_file o a file) = edits_files (role_at srv.tables fs.user_id o)
  may_write (voice_file o a v file) = edits_files (role_at srv.tables fs.user_id o)
  may_write (annotation_file o a v user file) =
      text_eq user fs.user_slug && is_ok (resolve_voice srv.tables fs o a v)
  may_write (library_entry user rel) = text_eq user fs.user_slug
  may_write _ = false

  org_of_visibility :
      (o : Text) {v : ℕ × Visibility}
      → resolve_org_visibility srv.tables o fs.user_id ≡ some v
      → find_org_id o srv.tables.organizations ≡ some v.0
  unfolding resolve_org_visibility
  org_of_visibility o e = elim (Option-cases (find_org_id o srv.tables.organizations)) [
    | inl n ↦ let e' = rw (resolve_org_visibility, n) at e in absurd (cc)
    | inr (org_id, n) ↦ let e' = rw (resolve_org_visibility, n) at e in n ∙ cc
  ]

  org_of_arr :
      (o a : Text) {t : ℕ × ℕ × Visibility}
      → resolve_arr srv.tables fs o a ≡ ok t
      → find_org_id o srv.tables.organizations ≡ some t.0
  unfolding resolve_arr
  org_of_arr o a {t} e =
      let (v, e1, k1) =
        bind-ok (ok_or (resolve_org_visibility srv.tables o fs.user_id) not_found) _ e in
      let (i, e2, k2) = bind-ok (ok_or (arr_id_by_slug srv.tables v.0 a) not_found) _ k1 in
      let (u, e3, k3) =
        bind-ok (require_assignment v.1 (has_assignment_on_arrangement srv.tables i fs.user_id)) _
          k2 in
      let same : v.0 ≡ t.0 = cc in org_of_visibility o (ok_or-ok _ _ e1) ∙ ap some same

  edits-writes : (r : Option Role) → writes_files r ≡ edits_files r
  edits-writes none = refl
  edits-writes (some owner) = refl
  edits-writes (some archivist) = refl
  edits-writes (some conductor) = refl
  edits-writes (some musician) = refl

  role_at-some :
      (o : Text) {org_id : ℕ}
      → find_org_id o srv.tables.organizations ≡ some org_id
      → role_at srv.tables fs.user_id o ≡ role_in_org org_id fs.user_id srv.tables.memberships
  role_at-some o e = rw (role_at, e) refl

  -- A resolution for a write fails for whoever may not edit files.
  refused_write :
      (o a : Text)
      → edits_files (role_at srv.tables fs.user_id o) ≡ false
      → (e : FsError) × (resolve_arr_for_write srv.tables fs o a ≡ err e)
  unfolding resolve_arr_for_write
  refused_write o a h = elim (Result-cases (resolve_arr srv.tables fs o a)) [
    | inr (e, r) ↦ (e, rw (resolve_arr_for_write, r) refl)
    | inl (t, r) ↦
        let no_write =
          edits-writes (role_in_org t.0 fs.user_id srv.tables.memberships)
          ∙ sym (ap edits_files (role_at-some o (org_of_arr o a r)))
          ∙ h in
        (forbidden, rw (resolve_arr_for_write, r, no_write) refl)
  ]

  -- What is refused to whoever may not write at a place.
  pub record IsRefused (p : ResolvedPath) : Type 0 where
    pub write : is_ok (resolve_write_target srv fs p) ≡ false
    pub delete :
        (be : Backend) (now : ℕ) (disk : Disk) → is_ok (remove srv fs be now p disk) ≡ false

  not_is_ok {ℓ κ} :
      {A : Type ℓ} {B : Type κ} (r : FsResult A) (f : A → FsResult B)
      → is_ok r ≡ false
      → is_ok (r >>= f) ≡ false
  not_is_ok (ok a) f h = absurd (cc)
  not_is_ok (err e) f h = refl

  -- Whoever may not write at a place can neither open it for writing nor remove it, for every kind
  -- of place. `may_write` is the matrix for files: owners and archivists of the organization for
  -- the files of arrangements, the author, if the voice is visible, for an annotation, the owner
  -- for a library, and nobody for anything else, such as the whole tree of collections.
  pub may_write-IsRefused : (p : ResolvedPath) → may_write p ≡ false → IsRefused p
  unfolding may_write resolve_write_target remove require_own_library
  may_write-IsRefused (score_file o a file) h =
      let (e, r) = refused_write o a h in
      record { write = rw r refl; delete = λ be now disk. rw r refl }
  may_write-IsRefused (voice_file o a v file) h =
      let (e, r) = refused_write o a h in
      record { write = rw r refl; delete = λ be now disk. rw r refl }
  may_write-IsRefused (annotation_file o a v user file) h =
      elim (Bool-cases (text_eq user fs.user_slug)) [
        | inr n ↦ record { write = rw n refl; delete = λ be now disk. rw n refl }
        | inl y ↦
            let hidden : is_ok (resolve_voice srv.tables fs o a v) ≡ false = rw y at h in
            record {
              write = rw y (not_is_ok (resolve_voice srv.tables fs o a v) _ hidden);
              delete = λ be now disk. rw y (not_is_ok (resolve_voice srv.tables fs o a v) _ hidden);
            }
      ]
  may_write-IsRefused (library_entry user rel) h = record {
    write = rw h refl;
    delete = λ be now disk. rw h refl;
  }
  may_write-IsRefused root h = record { write = refl; delete = λ be now disk. refl }
  may_write-IsRefused orgs_root h = record { write = refl; delete = λ be now disk. refl }
  may_write-IsRefused users_root h = record { write = refl; delete = λ be now disk. refl }
  may_write-IsRefused (org o) h = record { write = refl; delete = λ be now disk. refl }
  may_write-IsRefused _ h = record { write = refl; delete = λ be now disk. refl }
