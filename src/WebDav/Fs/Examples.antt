-- ===== src/WebDav/Fs/Examples.antt =====
-- Tests of lied/src/webdav/fs.rs: an owner, a guest and a musician in the tree of one organization.
use lied.Prelude.{
  ◌≡◌, ◌>>=◌, refl, true, false, none, List, [], ◌∷◌, ok, err, All, leb, length, if◌then◌else◌,
}
use lied.Prelude.Int.{pos}
use lied.Prelude.Text.{Text, codes, text_eq}
use lied.Storage.{upstream}
use lied.Storage
use lied.Storage.Examples.{without_part, nothing_stored}
use lied.Domain.File.{File, row_of}
use lied.Domain.File.Name.{format_and_ext_for_mime, mime_for_ext, split_filename}
use lied.Domain.File.Examples.{score, references}
use lied.Domain.Membership.Examples.{orchestra}
use lied.WebDav.Path.{annotation_file}
use lied.WebDav.Access.{Tables}
use lied.WebDav.Access.Examples.{db}
use lied.WebDav.Fs.{
  LiedFs, not_found, too_large, resolve_collection, resolve_collection_item,
  resolve_collection_voice,
}
use lied.WebDav.Fs.Scopes.{resolve_collection_voice-checked}
use lied.WebDav.Fs.Objects.{Server, LiedDirEntry, slot_named, basename}
use lied.WebDav.Fs.Directories.{file_entries}
use lied.WebDav.Fs.Agreement.{ListsAgree, list-stat}
use lied.WebDav.Fs.Agreement.Slugs.{HasSlugs}
use lied.WebDav.Fs.Write.{WriteTarget, org_file, Backend, Disk, commit_write, mime_of_name}
use lied.WebDav.Fs.Permissions.{may_write, IsRefused, may_write-IsRefused}
use lied.WebDav.Fs.Commit.{IsCommit, commit_write-IsCommit}
use lied.WebDav.Fs.Names.{IsNamed, IsShown, file_entries-found}
use lied.Prelude.{Result}
use lied.Storage.{StorageError}
use lied.WebDav.Path.{parse, split_from, from_segments, match_segments, match_users, match_library}
use lied.WebDav.Fs.Objects.{library_key, join}
use lied.WebDav.Fs.Nodes.{require_own_library}
use lied.WebDav.Fs.Write.{resolve_write_target, library}
use lied.WebDav.Fs.Buffer.{writing, open_file}
use lied.Prelude.Utf8.{is_utf8, follow}
use lied.WebDav.Fs.Handlers.{OpenOptions, parse_path, open_write, dav_open}
use lied.WebDav.Fs.Handlers.Keys.{IsOwn, dav_open-IsOwn}
use lied.WebDav.Fs.Buffer.Session.{session, body, once, session_lem}

abbrev tables : Tables
tables = record db { memberships = orchestra }

abbrev guest : LiedFs
guest = record { user_id = 91; user_slug = codes "guest"; max_upload_bytes = 8; request_id = none }

abbrev owner_fs : LiedFs
owner_fs = record { user_id = 11; user_slug = codes "ann"; max_upload_bytes = 8; request_id = none }

abbrev stored_score : File
stored_score = row_of 1 71 score

abbrev srv : Server
srv = record {
  tables = tables;
  files = stored_score ∷ [];
  objects = record {
    head_object = λ key. err Storage.StorageError.not_found;
    list_objects = λ key. ok (record { objects = []; dirs = [] });
  };
  collate = λ s t. true;
}

abbrev be : Backend
be = record {
  client = without_part 9;
  head_object = λ objects key. false;
  delete_object = λ key. true;
  references = references;
  accepts = λ row. true;
  log_id = 31;
  uuid_text = λ id. codes "voice";
}

abbrev disk : Disk
disk = record { files = stored_score ∷ []; objects = nothing_stored; audit = [] }

resolve_collection_voice-checked_example :
    (resolve_collection tables guest (codes "acme") (codes "spring") >>= λ _.
    resolve_collection_item tables guest (codes "acme") (codes "spring") (pos 2) (codes "bolero")
    >>= λ _.
        resolve_collection_voice tables guest
          (codes "acme")
          (codes "spring")
          (pos 2)
          (codes "bolero")
          (codes "voice-1"))
    ≡ resolve_collection_voice tables guest
        (codes "acme")
        (codes "spring")
        (pos 2)
        (codes "bolero")
        (codes "voice-1")
resolve_collection_voice-checked_example =
    resolve_collection_voice-checked tables guest (codes "acme") (codes "spring") (pos 2)
      (codes "bolero") (codes "voice-1")

slugs : HasSlugs tables
unfolding text_eq
slugs = record {
  arrangements = λ org_id. ((λ _ _. refl, (λ _ _. refl, tt)), ((λ _ _. refl, tt), (tt, tt)));
  collections = λ org_id. (tt, tt);
  voices = λ arr_id. ((λ _ _. refl, tt), (tt, tt));
}

list-stat_example : ListsAgree srv guest
list-stat_example = list-stat srv guest slugs

may_write-IsRefused_example :
    IsRefused srv guest
      (annotation_file (codes "acme") (codes "bolero") (codes "voice-1") (codes "ann") (codes "1"))
unfolding may_write text_eq
may_write-IsRefused_example =
    may_write-IsRefused srv guest
      (annotation_file (codes "acme") (codes "bolero") (codes "voice-1") (codes "ann") (codes "1"))
      refl

abbrev target : WriteTarget
target =
    org_file 5
      (record { arrangement_id = 21; voice_id = none; name = codes "bolero"; format = codes "pdf" })
      (codes "application/pdf") (codes "orgs/acme/arrangements/bolero/score/bolero.pdf")

commit_write-IsCommit_example :
    IsCommit owner_fs be 72
      (codes "%PDF-1.4")
      disk
      target
      (commit_write srv owner_fs be 2 3 72 target (codes "%PDF-1.4") disk)
commit_write-IsCommit_example =
    commit_write-IsCommit srv owner_fs be 2 3 72 target (codes "%PDF-1.4") disk (tt, tt)

stored_score-IsNamed : IsNamed stored_score
unfolding format_and_ext_for_mime text_eq
stored_score-IsNamed = record { named = refl; agrees = λ pair e. cc }

file_entries-found_example :
    All
      (λ (e : LiedDirEntry). IsShown srv owner_fs 21 none e.name)
      (file_entries srv owner_fs (codes "acme") (codes "bolero") none 21 none)
file_entries-found_example =
    file_entries-found srv owner_fs 21 none (codes "acme") (codes "bolero") none (tt, tt)
      (stored_score-IsNamed, tt)

abbrev writes : List (List Text)
writes = (codes "%P" ∷ codes "D" ∷ []) ∷ (codes "F-1.4" ∷ []) ∷ []

session_lem_example : session srv owner_fs be 2 3 72 target 8 writes disk ≡ (
    if leb (length (body writes)) 8
    then once srv owner_fs be 2 3 72 target (body writes) disk
    else (err too_large, err too_large, disk))
session_lem_example = session_lem srv owner_fs be 2 3 72 target 8 writes disk

slots :
    (slot_named 21 none (codes "bolero.jpeg") not_found
      ≡ ok (
        record {
          arrangement_id = 21;
          voice_id = none;
          name = codes "bolero";
          format = codes "image";
        },
        codes "jpg",
      ))
    × (slot_named 21 none (codes "bolero.txt") not_found ≡ err not_found)
    × (basename (codes "users/ann/library/a/") ≡ codes "a")
    × (mime_of_name (codes "notes.txt") ≡ codes "application/octet-stream")
unfolding slot_named split_filename mime_for_ext format_and_ext_for_mime basename mime_of_name
    text_eq
slots = (refl, refl, refl, refl)

abbrev no_objects : Text → Result StorageError Text
no_objects key = err Storage.StorageError.not_found

abbrev writing_options : OpenOptions
writing_options = record { write = true; append = false; truncate = true; create = true }

abbrev shelf : Text
shelf = codes "users/guest/library/a.txt"

opened :
    dav_open srv guest no_objects writing_options (codes "/users/guest/library/a.txt")
    ≡ ok (
        writing (record {
          target = library shelf (codes "application/octet-stream");
          buf = [];
          max = 8;
          committed = false;
        }))
unfolding dav_open parse_path is_utf8 follow parse split_from from_segments match_segments
    match_users match_library open_write resolve_write_target require_own_library library_key join
    mime_of_name split_filename mime_for_ext open_file text_eq
opened = refl

dav_open-IsOwn_example : IsOwn srv guest (library shelf (codes "application/octet-stream"))
dav_open-IsOwn_example =
    dav_open-IsOwn srv guest no_objects writing_options (codes "/users/guest/library/a.txt") opened

unreadable :
    (parse_path (0xFF ∷ []) ≡ err not_found)
    × (parse_path (codes "/users/../library/a.txt") ≡ err not_found)
    × (is_utf8 (0xE2 ∷ 0x82 ∷ 0xAC ∷ []) ≡ true)
    × (is_utf8 (0xED ∷ 0xA0 ∷ 0x80 ∷ []) ≡ false)
unfolding parse_path is_utf8 follow parse split_from from_segments text_eq
unreadable = (refl, refl, refl, refl)
