-- ===== src/WebDav/Path/Safety.antt =====
-- What lied/src/webdav/path.rs lets through: the names in a parsed path.
use lied.Prelude.{
  ◌≡◌, Bool, true, false, Option, none, some, List, [], ◌∷◌, All, any, if◌then◌else◌, Bool-cases,
  Option-cases, inl, inr, arith, subst,
}
use lied.Prelude.Int.{ℤ}
use lied.Prelude.Text.{Text, text_eq}
use lied.WebDav.Path.{
  ResolvedPath, root, orgs_root, users_root, org, arrangements_root, collections_root, user_home,
  library_root, arrangement, score_dir, voices_dir, collection, score_file, voice, annotations_dir,
  voice_file, annotations_user_dir, annotation_file, collection_item_dir, collection_score_dir,
  collection_voices_dir, collection_score_file, collection_voice, collection_voice_file,
  library_entry, annotations_segment, score_segment, voices_segment, orgs_segment, users_segment,
  library_segment, arrangements_segment, collections_segment, is_unsafe, from_segments, split_from,
  parse, match_segments, match_orgs, match_users, match_library, match_arrangements, match_voices,
  match_score, match_collections, match_item,
}
use lied.WebDav.Path.Item.{split_item_segment}

-- The names that a place is made of, except the slug in `<index>-<slug>`.
unfoldable pub names : ResolvedPath → List Text
names root = []
names orgs_root = []
names users_root = []
names (org o) = o ∷ []
names (arrangements_root o) = o ∷ []
names (collections_root o) = o ∷ []
names (user_home u) = u ∷ []
names (library_root u) = u ∷ []
names (arrangement o a) = o ∷ a ∷ []
names (score_dir o a) = o ∷ a ∷ []
names (voices_dir o a) = o ∷ a ∷ []
names (collection o c) = o ∷ c ∷ []
names (score_file o a f) = o ∷ a ∷ f ∷ []
names (voice o a v) = o ∷ a ∷ v ∷ []
names (annotations_dir o a v) = o ∷ a ∷ v ∷ []
names (voice_file o a v f) = o ∷ a ∷ v ∷ f ∷ []
names (annotations_user_dir o a v u) = o ∷ a ∷ v ∷ u ∷ []
names (annotation_file o a v u f) = o ∷ a ∷ v ∷ u ∷ f ∷ []
names (collection_item_dir o c i s) = o ∷ c ∷ []
names (collection_score_dir o c i s) = o ∷ c ∷ []
names (collection_voices_dir o c i s) = o ∷ c ∷ []
names (collection_score_file o c i s f) = o ∷ c ∷ f ∷ []
names (collection_voice o c i s v) = o ∷ c ∷ v ∷ []
names (collection_voice_file o c i s v f) = o ∷ c ∷ v ∷ f ∷ []
names (library_entry u rel) = u ∷ rel

abbrev pub IsSafe : Text → Type 0
IsSafe s = is_unsafe s ≡ false

-- A result that, if there is one, has only safe names.
abbrev HasSafeNames : Option ResolvedPath → Type 0
HasSafeNames none = Unit {0}
HasSafeNames (some p) = All IsSafe (names p)

branch :
    (b : Bool) (p q : Option ResolvedPath)
    → HasSafeNames p
    → HasSafeNames q
    → HasSafeNames (if b then p else q)
branch true p q h k = h
branch false p q h k = k

module _ (o a : Text) (so : IsSafe o) (sa : IsSafe a) where
  match_score-HasSafeNames :
      (rest : List Text) → All IsSafe rest → HasSafeNames (match_score o a rest)
  unfolding match_score names
  match_score-HasSafeNames [] _ = (so, (sa, tt))
  match_score-HasSafeNames (f ∷ []) (sf, _) = (so, (sa, (sf, tt)))
  match_score-HasSafeNames (f ∷ _ ∷ _) _ = tt

  match_voices-HasSafeNames :
      (rest : List Text) → All IsSafe rest → HasSafeNames (match_voices o a rest)
  unfolding match_voices names
  match_voices-HasSafeNames [] _ = (so, (sa, tt))
  match_voices-HasSafeNames (v ∷ []) (sv, _) = (so, (sa, (sv, tt)))
  match_voices-HasSafeNames (v ∷ x ∷ []) (sv, (sx, _)) =
      branch (text_eq x annotations_segment) _ _ (so, (sa, (sv, tt))) (so, (sa, (sv, (sx, tt))))
  match_voices-HasSafeNames (v ∷ x ∷ u ∷ []) (sv, (sx, (su, _))) =
      branch (text_eq x annotations_segment) _ _ (so, (sa, (sv, (su, tt)))) tt
  match_voices-HasSafeNames (v ∷ x ∷ u ∷ f ∷ []) (sv, (sx, (su, (sf, _)))) =
      branch (text_eq x annotations_segment) _ _ (so, (sa, (sv, (su, (sf, tt))))) tt
  match_voices-HasSafeNames (v ∷ x ∷ u ∷ f ∷ _ ∷ _) _ = tt

  match_item-HasSafeNames :
      (i : ℤ) (s : Text) (rest : List Text)
      → All IsSafe rest
      → HasSafeNames (match_item o a i s rest)
  unfolding match_item names
  match_item-HasSafeNames i s [] _ = (so, (sa, tt))
  match_item-HasSafeNames i s (kind ∷ []) _ =
      branch (text_eq kind score_segment) _ _ (so, (sa, tt))
        (branch (text_eq kind voices_segment) _ _ (so, (sa, tt)) tt)
  match_item-HasSafeNames i s (kind ∷ x ∷ []) (_, (sx, _)) =
      branch (text_eq kind score_segment) _ _ (so, (sa, (sx, tt)))
        (branch (text_eq kind voices_segment) _ _ (so, (sa, (sx, tt))) tt)
  match_item-HasSafeNames i s (kind ∷ v ∷ f ∷ []) (_, (sv, (sf, _))) =
      branch (text_eq kind voices_segment) _ _ (so, (sa, (sv, (sf, tt)))) tt
  match_item-HasSafeNames i s (kind ∷ v ∷ f ∷ _ ∷ _) _ = tt

module _ (o : Text) (so : IsSafe o) where
  match_arrangements-HasSafeNames :
      (rest : List Text) → All IsSafe rest → HasSafeNames (match_arrangements o rest)
  unfolding match_arrangements names
  match_arrangements-HasSafeNames [] _ = (so, tt)
  match_arrangements-HasSafeNames (a ∷ []) (sa, _) = (so, (sa, tt))
  match_arrangements-HasSafeNames (a ∷ kind ∷ rest) (sa, (_, h)) =
      branch (text_eq kind score_segment) _ _ (match_score-HasSafeNames o a so sa rest h)
        (branch (text_eq kind voices_segment) _ _ (match_voices-HasSafeNames o a so sa rest h) tt)

  match_collections-HasSafeNames :
      (rest : List Text) → All IsSafe rest → HasSafeNames (match_collections o rest)
  unfolding match_collections names
  match_collections-HasSafeNames [] _ = (so, tt)
  match_collections-HasSafeNames (c ∷ []) (sc, _) = (so, (sc, tt))
  match_collections-HasSafeNames (c ∷ item ∷ rest) (sc, (_, h)) =
      elim (Option-cases (split_item_segment item)) [
        | inl e ↦ rw (match_collections, e) tt
        | inr ((i, s), e) ↦ rw (match_collections, e) (match_item-HasSafeNames o c so sc i s rest h)
      ]

  match_library-HasSafeNames :
      (rest : List Text) → All IsSafe rest → HasSafeNames (match_library o rest)
  unfolding match_library names
  match_library-HasSafeNames [] _ = (so, tt)
  match_library-HasSafeNames (r ∷ rest) h = (so, h)

match_orgs-HasSafeNames : (rest : List Text) → All IsSafe rest → HasSafeNames (match_orgs rest)
unfolding match_orgs names
match_orgs-HasSafeNames [] _ = tt
match_orgs-HasSafeNames (o ∷ []) (so, _) = (so, tt)
match_orgs-HasSafeNames (o ∷ tree ∷ rest) (so, (_, h)) =
    branch (text_eq tree arrangements_segment) _ _ (match_arrangements-HasSafeNames o so rest h) (
      branch (text_eq tree collections_segment) _ _ (match_collections-HasSafeNames o so rest h) tt)

match_users-HasSafeNames : (rest : List Text) → All IsSafe rest → HasSafeNames (match_users rest)
unfolding match_users names
match_users-HasSafeNames [] _ = tt
match_users-HasSafeNames (u ∷ []) (su, _) = (su, tt)
match_users-HasSafeNames (u ∷ x ∷ rest) (su, (_, h)) =
    branch (text_eq x library_segment) _ _ (match_library-HasSafeNames u su rest h) tt

match_segments-HasSafeNames :
    (segs : List Text) → All IsSafe segs → HasSafeNames (match_segments segs)
unfolding match_segments names
match_segments-HasSafeNames [] _ = tt
match_segments-HasSafeNames (top ∷ rest) (_, h) =
    branch (text_eq top orgs_segment) _ _ (match_orgs-HasSafeNames rest h)
      (branch (text_eq top users_segment) _ _ (match_users-HasSafeNames rest h) tt)

All-IsSafe : (segs : List Text) → any is_unsafe segs ≡ false → All IsSafe segs
All-IsSafe [] _ = tt
All-IsSafe (s ∷ segs) h = (ground arith, All-IsSafe segs (ground arith))

from_segments-HasSafeNames : (segs : List Text) → HasSafeNames (from_segments segs)
unfolding from_segments
from_segments-HasSafeNames segs = elim (Bool-cases (any is_unsafe segs)) [
  | inl e ↦ rw e tt
  | inr e ↦ rw e (match_segments-HasSafeNames segs (All-IsSafe segs e))
]

-- No request path climbs out of the tree: whatever bytes the path has, if it is parsed at all then
-- each of the names of its place (of the organization, arrangement, voice, user, file, and each
-- part of a library path, but not the slug behind an item's index) is neither empty nor `.` nor
-- `..`.
pub parse-IsSafe : (path : Text) (p : ResolvedPath) → parse path ≡ some p → All IsSafe (names p)
unfolding parse
parse-IsSafe path p e = subst HasSafeNames e (from_segments-HasSafeNames (split_from [] path))
