-- ===== src/WebDav/Fs/Objects.antt =====
-- lied/src/webdav/fs.rs: the data and the keys of nodes. The object storage answers by two
-- functions; `none` for a time stands for the clock of the server.
use lied.Prelude.{
  ℕ, suc, ◌+◌, ◌*◌, Bool, true, false, Option, some, List, [], ◌∷◌, ◌++◌, Result, ok, ◌>>=◌, ◌==◌,
  if◌then◌else◌,
}
use lied.Prelude.Int.{ℤ, pos, negsuc}
use lied.Prelude.Text.{Text, codes}
use lied.Prelude.Decimal.{decimal}
use lied.Storage.{StorageError}
use lied.Storage.Pages.{DirListing}
use lied.Domain.File
use lied.Domain.File.{File, Slot, find_by_location}
use lied.Domain.File.Name.{format_and_ext_for_mime, mime_for_ext, split_filename, behind}
use lied.Domain.File.Slugs.{Tree}
use lied.WebDav.Access.{Tables}
use lied.WebDav.Fs.{FsError, FsResult, ok_or}

pub record LiedMeta : Type 0 where
  pub is_dir : Bool
  pub len : ℕ
  pub modified : Option ℕ

-- 2020-01-01, as all directories
abbrev pub dir_mtime : ℕ
dir_mtime = 1577836800 * 1000000

abbrev pub dir_meta : LiedMeta
dir_meta = record { is_dir = true; len = 0; modified = some dir_mtime }

abbrev pub file_meta : ℕ → Option ℕ → LiedMeta
file_meta len modified = record { is_dir = false; len = len; modified = modified }

pub record LiedDirEntry : Type 0 where
  pub name : Text
  pub meta : LiedMeta

abbrev pub dir_entry : Text → LiedDirEntry
dir_entry name = record { name = name; meta = dir_meta }

pub record ObjectHead : Type 0 where
  pub size : ℕ
  pub modified : Option ℕ

pub record Objects : Type 0 where
  pub head_object : Text → Result StorageError ObjectHead
  pub list_objects : Text → Result StorageError DirListing

abbrev pub annotations_prefix : Text → Text → Text → Text
annotations_prefix o a v =
    codes "orgs/"
    ++ o
    ++ codes "/arrangements/"
    ++ a
    ++ codes "/voices/"
    ++ v
    ++ codes "/annotations/"

unfoldable pub annotation_key : Text → Text → Text → Text → Text → Text
annotation_key o a v user file = annotations_prefix o a v ++ user ++ b'/' ∷ file

unfoldable pub join : List Text → Text
join [] = []
join (s ∷ []) = s
join (s ∷ t ∷ ss) = s ++ b'/' ∷ join (t ∷ ss)

unfoldable pub library_key : Text → List Text → Text
unfolding join
library_key user rel = codes "users/" ++ user ++ codes "/library/" ++ join rel

abbrev unless_slash : ℕ → Text → Text
unless_slash c [] = if c == b'/' then [] else c ∷ []
unless_slash c (d ∷ s) = c ∷ d ∷ s

-- `trim_end_matches('/')`
trim_slashes : Text → Text
trim_slashes [] = []
trim_slashes (c ∷ s) = unless_slash c (trim_slashes s)

unfoldable pub basename : Text → Text
unfolding trim_slashes
basename key = behind b'/' (trim_slashes key)

-- `format!("{}-{}", item.index, item.arrangement_slug)`
unfoldable pub item_name : ℤ → Text → Text
unfolding decimal
item_name (pos n) slug = decimal (suc n) n ++ b'-' ∷ slug
item_name (negsuc n) slug = b'-' ∷ (decimal (suc (n + 1)) (n + 1) ++ b'-' ∷ slug)

-- The slot that a file name stands for.
unfoldable pub slot_named : ℕ → Option ℕ → Text → FsError → FsResult (Slot × Text)
unfolding split_filename mime_for_ext format_and_ext_for_mime
slot_named arr_id voice_id filename e = do
  (stem, ext) ← ok_or (split_filename filename) e
  mime ← ok_or (mime_for_ext ext) e
  (format, canonical) ← ok_or (format_and_ext_for_mime mime) e
  ok (
    record { arrangement_id = arr_id; voice_id = voice_id; name = stem; format = format },
    canonical,
  )

-- What the server holds.
pub record Server : Type 0 where
  pub tables : Tables
  pub files : File.Table
  pub objects : Objects
  pub collate : Text → Text → Bool

abbrev pub tree_of : Tables → Tree
tree_of db = record {
  organizations = db.organizations;
  arrangements = db.arrangements;
  voices = db.voices;
}
