-- ===== src/WebDav/Path.antt =====
-- lied/src/webdav/path.rs: from a request path to its place in the entity tree.
pub mod Item
pub mod Decimal
pub mod RoundTrip
pub mod Safety
mod Examples
use lied.Prelude.{
  ℕ, suc, Bool, true, false, not, ◌&&◌, ◌||◌, Option, none, some, List, [], ◌∷◌, any, ◌==◌, ◌++◌,
  if◌then◌else◌,
}
use lied.Prelude.Int.{ℤ}
use lied.Prelude.Text.{Text, codes, text_eq}
use Item.{split_item_segment}

abbrev pub orgs_segment : Text
orgs_segment = codes "orgs"

abbrev pub users_segment : Text
users_segment = codes "users"

abbrev pub arrangements_segment : Text
arrangements_segment = codes "arrangements"

abbrev pub collections_segment : Text
collections_segment = codes "collections"

abbrev pub score_segment : Text
score_segment = codes "score"

abbrev pub voices_segment : Text
voices_segment = codes "voices"

abbrev pub annotations_segment : Text
annotations_segment = codes "annotations"

abbrev pub library_segment : Text
library_segment = codes "library"

-- The fields stand in the source's order.
pub data ResolvedPath : Type 0 where
  root orgs_root users_root : ResolvedPath
  org arrangements_root collections_root user_home library_root : Text → ResolvedPath
  arrangement score_dir voices_dir collection : Text → Text → ResolvedPath
  score_file voice annotations_dir : Text → Text → Text → ResolvedPath
  voice_file annotations_user_dir : Text → Text → Text → Text → ResolvedPath
  annotation_file : Text → Text → Text → Text → Text → ResolvedPath
  collection_item_dir collection_score_dir collection_voices_dir :
      Text → Text → ℤ → Text → ResolvedPath
  collection_score_file collection_voice : Text → Text → ℤ → Text → Text → ResolvedPath
  collection_voice_file : Text → Text → ℤ → Text → Text → Text → ResolvedPath
  library_entry : Text → List Text → ResolvedPath

-- The arms under `["orgs", org, ARRANGEMENTS, arr, SCORE, ..]`
unfoldable pub match_score : Text → Text → List Text → Option ResolvedPath
match_score o a [] = some (score_dir o a)
match_score o a (file ∷ []) = some (score_file o a file)
match_score o a (file ∷ _ ∷ _) = none

-- The arms under `["orgs", org, ARRANGEMENTS, arr, VOICES, ..]`; `ANNOTATIONS` comes before the
-- plain voice file.
unfoldable pub match_voices : Text → Text → List Text → Option ResolvedPath
match_voices o a [] = some (voices_dir o a)
match_voices o a (v ∷ []) = some (voice o a v)
match_voices o a (v ∷ x ∷ []) =
    if text_eq x annotations_segment
    then some (annotations_dir o a v)
    else some (voice_file o a v x)
match_voices o a (v ∷ x ∷ u ∷ []) =
    if text_eq x annotations_segment then some (annotations_user_dir o a v u) else none
match_voices o a (v ∷ x ∷ u ∷ file ∷ []) =
    if text_eq x annotations_segment then some (annotation_file o a v u file) else none
match_voices o a (v ∷ x ∷ u ∷ file ∷ _ ∷ _) = none

unfoldable pub match_arrangements : Text → List Text → Option ResolvedPath
unfolding match_score match_voices
match_arrangements o [] = some (arrangements_root o)
match_arrangements o (a ∷ []) = some (arrangement o a)
match_arrangements o (a ∷ kind ∷ rest) =
    if text_eq kind score_segment
    then match_score o a rest
    else if text_eq kind voices_segment
    then match_voices o a rest
    else none

-- The arms under `["orgs", org, COLLECTIONS, coll, item, ..]`, with the item's segment split.
unfoldable pub match_item : Text → Text → ℤ → Text → List Text → Option ResolvedPath
match_item o c i s [] = some (collection_item_dir o c i s)
match_item o c i s (kind ∷ []) =
    if text_eq kind score_segment
    then some (collection_score_dir o c i s)
    else if text_eq kind voices_segment
    then some (collection_voices_dir o c i s)
    else none
match_item o c i s (kind ∷ x ∷ []) =
    if text_eq kind score_segment
    then some (collection_score_file o c i s x)
    else if text_eq kind voices_segment
    then some (collection_voice o c i s x)
    else none
match_item o c i s (kind ∷ v ∷ file ∷ []) =
    if text_eq kind voices_segment then some (collection_voice_file o c i s v file) else none
match_item o c i s (kind ∷ v ∷ file ∷ _ ∷ _) = none

unfoldable pub match_collections : Text → List Text → Option ResolvedPath
unfolding match_item split_item_segment
match_collections o [] = some (collections_root o)
match_collections o (c ∷ []) = some (collection o c)
match_collections o (c ∷ item ∷ rest) = elim (split_item_segment item) [
  | none ↦ none
  | some (i, s) ↦ match_item o c i s rest
]

unfoldable pub match_orgs : List Text → Option ResolvedPath
unfolding match_arrangements match_collections
match_orgs [] = some orgs_root
match_orgs (o ∷ []) = some (org o)
match_orgs (o ∷ tree ∷ rest) =
    if text_eq tree arrangements_segment
    then match_arrangements o rest
    else if text_eq tree collections_segment
    then match_collections o rest
    else none

unfoldable pub match_library : Text → List Text → Option ResolvedPath
match_library u [] = some (library_root u)
match_library u (name ∷ rest) = some (library_entry u (name ∷ rest))

unfoldable pub match_users : List Text → Option ResolvedPath
unfolding match_library
match_users [] = some users_root
match_users (u ∷ []) = some (user_home u)
match_users (u ∷ x ∷ rest) = if text_eq x library_segment then match_library u rest else none

unfoldable pub match_segments : List Text → Option ResolvedPath
unfolding match_orgs match_users
match_segments [] = some root
match_segments (top ∷ rest) =
    if text_eq top orgs_segment
    then match_orgs rest
    else if text_eq top users_segment
    then match_users rest
    else none

abbrev pub is_empty : Text → Bool
is_empty [] = true
is_empty (c ∷ s) = false

-- `*s == "." || *s == ".." || s.is_empty()`
unfoldable pub is_unsafe : Text → Bool
is_unsafe s = text_eq s (codes ".") || (text_eq s (codes "..") || is_empty s)

unfoldable pub from_segments : List Text → Option ResolvedPath
unfolding match_segments is_unsafe
from_segments segs = if any is_unsafe segs then none else match_segments segs

-- `path.split('/').filter(|s| !s.is_empty())`, with the part read so far.
unfoldable pub split_from : Text → Text → List Text
split_from part [] = if is_empty part then [] else part ∷ []
split_from part (c ∷ path) = elim (c == b'/') [
  | true ↦ if is_empty part then split_from [] path else part ∷ split_from [] path
  | false ↦ split_from (part ++ c ∷ []) path
]

unfoldable pub parse : Text → Option ResolvedPath
unfolding from_segments split_from
parse path = from_segments (split_from [] path)

unfoldable pub is_collection : ResolvedPath → Bool
is_collection (score_file _ _ _) = false
is_collection (voice_file _ _ _ _) = false
is_collection (annotation_file _ _ _ _ _) = false
is_collection (collection_score_file _ _ _ _ _) = false
is_collection (collection_voice_file _ _ _ _ _ _) = false
is_collection (library_entry _ _) = false
is_collection _ = true

unfoldable pub is_library : ResolvedPath → Bool
is_library users_root = true
is_library (user_home _) = true
is_library (library_root _) = true
is_library (library_entry _ _) = true
is_library _ = false
