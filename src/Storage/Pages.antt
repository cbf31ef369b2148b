-- ===== src/Storage/Pages.antt =====
-- `list_objects` of lied/src/storage.rs: one level below a prefix, page by page.
pub mod Complete
use lied.Prelude.{
  ℕ, zero, suc, ◌+◌, ◌*◌, Bool, true, false, Option, none, some, List, [], ◌∷◌, ◌++◌, Result, ok,
  err, ◌>>=◌, if◌then◌else◌,
}
use lied.Prelude.Int.{ℤ, pos, negsuc}
use lied.Prelude.Text.{Text, text_eq}
use lied.Storage.{StorageError, s3_error}

pub record ListedObject : Type 0 where
  pub key : Text
  pub size : ℕ
  pub modified : Option ℕ

pub record DirListing : Type 0 where
  pub objects : List ListedObject
  pub dirs : List Text

-- What S3 says of an object; the time is seconds, and the microseconds below them.
pub record S3Object : Type 0 where
  pub key : Option Text
  pub size : Option ℤ
  pub last_modified : Option (ℤ × ℕ)

-- An answer of S3.
pub record Page : Type 0 where
  pub common_prefixes : List (Option Text)
  pub contents : List S3Object
  pub is_truncated : Option Bool
  pub next_continuation_token : Option Text

-- `ListObjectsV2` with a prefix and the token of the page before.
abbrev pub Pages : Type 0
Pages = Text → Option Text → Result StorageError Page

-- `size().unwrap_or(0).max(0) as u64`
abbrev pub size_of : Option ℤ → ℕ
size_of none = 0
size_of (some (pos n)) = n
size_of (some (negsuc n)) = 0

abbrev pub modified_of : Option (ℤ × ℕ) → Option ℕ
modified_of none = none
modified_of (some (pos secs, micros)) = some (secs * 1000000 + micros)
modified_of (some (negsuc secs, micros)) = none

abbrev listed_of : Text → S3Object → ListedObject
listed_of key obj = record {
  key = key;
  size = size_of obj.size;
  modified = modified_of obj.last_modified;
}

-- `for cp in out.common_prefixes()`
unfoldable pub dirs_of : List (Option Text) → List Text
dirs_of [] = []
dirs_of (none ∷ prefixes) = dirs_of prefixes
dirs_of (some p ∷ prefixes) = p ∷ dirs_of prefixes

abbrev kept_key : Text → S3Object → Option Text → List ListedObject → List ListedObject
kept_key prefix obj none rest = rest
kept_key prefix obj (some key) rest = if text_eq key prefix then rest else listed_of key obj ∷ rest

-- `for obj in out.contents()`: the marker of the directory itself is left out.
unfoldable pub objects_of : Text → List S3Object → List ListedObject
objects_of prefix [] = []
objects_of prefix (obj ∷ contents) = kept_key prefix obj obj.key (objects_of prefix contents)

abbrev pub with_page : Text → Page → DirListing → DirListing
with_page prefix page listing = record {
  objects = listing.objects ++ objects_of prefix page.contents;
  dirs = listing.dirs ++ dirs_of page.common_prefixes;
}

-- The token of the page that follows, if one does.
abbrev pub next_token : Page → Option Text
next_token page = elim page.is_truncated [
  | none ↦ none
  | some truncated ↦ if truncated then page.next_continuation_token else none
]

-- The loop, with fuel for the pages: whether S3 ends is up to S3.
unfoldable pub list_pages :
    Pages → Text → ℕ → Option Text → DirListing → Option (Result StorageError DirListing)
unfolding objects_of dirs_of
list_pages pages prefix zero token listing = none
list_pages pages prefix (suc fuel) token listing = elim (pages prefix token) [
  | err e ↦ some (err s3_error)
  | ok page ↦ elim (next_token page) [
    | none ↦ some (ok (with_page prefix page listing))
    | some t ↦ list_pages pages prefix fuel (some t) (with_page prefix page listing)
  ]
]

abbrev pub nothing_listed : DirListing
nothing_listed = record { objects = []; dirs = [] }

unfoldable pub list_objects : Pages → ℕ → Text → Option (Result StorageError DirListing)
unfolding list_pages
list_objects pages fuel prefix = list_pages pages prefix fuel none nothing_listed
