-- ===== src/WebDav/Path/RoundTrip.antt =====
-- The tree that lied/src/webdav/path.rs documents at `ResolvedPath`, written as a printer, and what
-- `parse` makes of the printed path.
use mathlib.Core.List.{append_assoc, append-nil}
use lied.Prelude.{
  ℕ, ◌≤◌, ◌≡◌, ◌≢◌, refl, sym, false, some, List, [], ◌∷◌, ◌++◌, All, any, ◌==◌, arith,
}
use lied.Prelude.Int.{ℤ, pos, negsuc, i32_max}
use lied.Prelude.Text.{Text, text_eq}
use lied.WebDav.Path.{
  ResolvedPath, root, orgs_root, users_root, org, arrangements_root, collections_root, user_home,
  library_root, arrangement, score_dir, voices_dir, collection, score_file, voice, annotations_dir,
  voice_file, annotations_user_dir, annotation_file, collection_item_dir, collection_score_dir,
  collection_voices_dir, collection_score_file, collection_voice, collection_voice_file,
  library_entry, orgs_segment, users_segment, arrangements_segment, collections_segment,
  score_segment, voices_segment, annotations_segment, library_segment, is_empty, is_unsafe,
  from_segments, split_from, parse, match_segments, match_orgs, match_users, match_library,
  match_arrangements, match_voices, match_score, match_collections, match_item,
}
use lied.WebDav.Path.Decimal.{item_segment, split_item_segment-item_segment}

abbrev pub HasNoSlash : Text → Type 0
HasNoSlash = All (λ c. (c == b'/') ≡ false)

-- A path segment that the parser takes.
abbrev pub IsName : Text → Type 0
IsName s = (is_unsafe s ≡ false) × HasNoSlash s

-- `/<segment>` for each segment
unfoldable pub render : List Text → Text
render [] = []
render (s ∷ segs) = b'/' ∷ (s ++ render segs)

abbrev nat_of : ℤ → ℕ
nat_of (pos n) = n
nat_of (negsuc n) = 0

abbrev item_path : Text → Text → ℤ → Text → List Text → List Text
item_path o c i s rest =
    orgs_segment ∷ o ∷ collections_segment ∷ c ∷ item_segment (nat_of i) s ∷ rest

abbrev arrangement_path : Text → Text → List Text → List Text
arrangement_path o a rest = orgs_segment ∷ o ∷ arrangements_segment ∷ a ∷ rest

-- The layout in the comments of the enum.
unfoldable pub segments : ResolvedPath → List Text
segments root = []
segments orgs_root = orgs_segment ∷ []
segments users_root = users_segment ∷ []
segments (org o) = orgs_segment ∷ o ∷ []
segments (arrangements_root o) = orgs_segment ∷ o ∷ arrangements_segment ∷ []
segments (collections_root o) = orgs_segment ∷ o ∷ collections_segment ∷ []
segments (user_home u) = users_segment ∷ u ∷ []
segments (library_root u) = users_segment ∷ u ∷ library_segment ∷ []
segments (arrangement o a) = arrangement_path o a []
segments (score_dir o a) = arrangement_path o a (score_segment ∷ [])
segments (voices_dir o a) = arrangement_path o a (voices_segment ∷ [])
segments (collection o c) = orgs_segment ∷ o ∷ collections_segment ∷ c ∷ []
segments (score_file o a f) = arrangement_path o a (score_segment ∷ f ∷ [])
segments (voice o a v) = arrangement_path o a (voices_segment ∷ v ∷ [])
segments (annotations_dir o a v) =
    arrangement_path o a (voices_segment ∷ v ∷ annotations_segment ∷ [])
segments (voice_file o a v f) = arrangement_path o a (voices_segment ∷ v ∷ f ∷ [])
segments (annotations_user_dir o a v u) =
    arrangement_path o a (voices_segment ∷ v ∷ annotations_segment ∷ u ∷ [])
segments (annotation_file o a v u f) =
    arrangement_path o a (voices_segment ∷ v ∷ annotations_segment ∷ u ∷ f ∷ [])
segments (collection_item_dir o c i s) = item_path o c i s []
segments (collection_score_dir o c i s) = item_path o c i s (score_segment ∷ [])
segments (collection_voices_dir o c i s) = item_path o c i s (voices_segment ∷ [])
segments (collection_score_file o c i s f) = item_path o c i s (score_segment ∷ f ∷ [])
segments (collection_voice o c i s v) = item_path o c i s (voices_segment ∷ v ∷ [])
segments (collection_voice_file o c i s v f) = item_path o c i s (voices_segment ∷ v ∷ f ∷ [])
segments (library_entry u rel) = users_segment ∷ u ∷ library_segment ∷ rel

abbrev pub IsPlace : ℤ → Text → Type 0
IsPlace (pos n) s = (n ≤ i32_max) × (s ≢ [])
IsPlace (negsuc n) s = ⊥

-- What the tree can hold besides the names: a non-negative index with a slug, a voice's file that
-- is not called `annotations`, and an entry of the library that is not the library itself.
unfoldable pub IsEntry : ResolvedPath → Type 0
IsEntry (voice_file o a v f) = text_eq f annotations_segment ≡ false
IsEntry (collection_item_dir o c i s) = IsPlace i s
IsEntry (collection_score_dir o c i s) = IsPlace i s
IsEntry (collection_voices_dir o c i s) = IsPlace i s
IsEntry (collection_score_file o c i s f) = IsPlace i s
IsEntry (collection_voice o c i s v) = IsPlace i s
IsEntry (collection_voice_file o c i s v f) = IsPlace i s
IsEntry (library_entry u rel) = rel ≢ []
IsEntry _ = Unit {0}

split_from-append :
    (segs : List Text) (part s : Text)
    → HasNoSlash s
    → is_empty (part ++ s) ≡ false
    → All IsName segs
    → split_from part (s ++ render segs) ≡ (part ++ s) ∷ segs
unfolding split_from render is_unsafe
split_from-append [] part [] _ ne _ =
    let ne' : is_empty part ≡ false = rw (append-nil part) at ne in rw (append-nil part, ne') refl
split_from-append (t ∷ segs) part [] _ ne ((safe, slash), names) =
    let ne' : is_empty part ≡ false = rw (append-nil part) at ne in
    let full : is_empty t ≡ false = ground arith in
    rw (ne', split_from-append segs [] t slash full names, append-nil part) refl
split_from-append segs part (c ∷ s) (d, ds) ne names =
    rw (split_from, d, sym (append_assoc part (c ∷ []) s))
      (split_from-append segs (part ++ c ∷ []) s ds (rw (append_assoc part (c ∷ []) s) ne) names)

-- The segments of a printed path are read back.
split_from-render : (segs : List Text) → All IsName segs → split_from [] (render segs) ≡ segs
unfolding split_from render is_unsafe
split_from-render [] _ = refl
split_from-render (t ∷ segs) ((safe, slash), names) =
    split_from-append segs [] t slash (ground arith) names

match_item-place :
    (o c s : Text) (i : ℤ) (rest : List Text)
    → IsPlace i s
    → match_collections o (c ∷ item_segment (nat_of i) s ∷ rest) ≡ match_item o c i s rest
unfolding match_collections
match_item-place o c s (negsuc n) rest h = elim h [ ]
match_item-place o c s (pos n) rest (h, ne) =
    rw (match_collections, split_item_segment-item_segment n s h ne) refl

match_segments-segments : (p : ResolvedPath) → IsEntry p → match_segments (segments p) ≡ some p
unfolding match_segments match_orgs match_users match_library match_arrangements match_voices
    match_score segments IsEntry text_eq match_item
match_segments-segments (collection_item_dir o c i s) h = match_item-place o c s i [] h
match_segments-segments (collection_score_dir o c i s) h =
    match_item-place o c s i (score_segment ∷ []) h
match_segments-segments (collection_voices_dir o c i s) h =
    match_item-place o c s i (voices_segment ∷ []) h
match_segments-segments (collection_score_file o c i s f) h =
    match_item-place o c s i (score_segment ∷ f ∷ []) h
match_segments-segments (collection_voice o c i s v) h =
    match_item-place o c s i (voices_segment ∷ v ∷ []) h
match_segments-segments (collection_voice_file o c i s v f) h =
    match_item-place o c s i (voices_segment ∷ v ∷ f ∷ []) h
match_segments-segments (voice_file o a v f) h = rw h refl
match_segments-segments (library_entry u []) h = absurd (h refl)
match_segments-segments (library_entry u (r ∷ rel)) h = refl
match_segments-segments root h = refl
match_segments-segments orgs_root h = refl
match_segments-segments users_root h = refl
match_segments-segments (org o) h = refl
match_segments-segments (arrangements_root o) h = refl
match_segments-segments (collections_root o) h = refl
match_segments-segments (user_home u) h = refl
match_segments-segments (library_root u) h = refl
match_segments-segments (arrangement o a) h = refl
match_segments-segments (score_dir o a) h = refl
match_segments-segments (voices_dir o a) h = refl
match_segments-segments (collection o c) h = refl
match_segments-segments (score_file o a f) h = refl
match_segments-segments (voice o a v) h = refl
match_segments-segments (annotations_dir o a v) h = refl
match_segments-segments (annotations_user_dir o a v u) h = refl
match_segments-segments (annotation_file o a v u f) h = refl

none_unsafe : (segs : List Text) → All IsName segs → any is_unsafe segs ≡ false
none_unsafe [] _ = refl
none_unsafe (s ∷ segs) ((safe, _), names) = ground (arith, none_unsafe segs names)

-- Every place of the tree has a path, and parsing its path gives the place back: for an entry of
-- the tree whose segments are names (not `.`, `..`, empty or with a slash), `parse` of the printed
-- path is that entry.
pub parse-render :
    (p : ResolvedPath) → IsEntry p → All IsName (segments p) → parse (render (segments p)) ≡ some p
unfolding parse from_segments
parse-render p entry names =
    rw (split_from-render (segments p) names, none_unsafe (segments p) names)
      (match_segments-segments p entry)
