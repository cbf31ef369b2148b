-- ===== src/Domain/File/Name.antt =====
-- lied/src/domain/file.rs: formats, file names and the keys of stored objects.
pub mod Reverse
use lied.Prelude.{
  ℕ, Bool, true, false, ◌&&◌, ◌||◌, Option, none, some, List, [], ◌∷◌, ◌++◌, any, ◌==◌, leb, find,
  ◌+◌, if◌then◌else◌,
}
use lied.Prelude.Text.{Text, codes, text_eq, concat}

-- The standard library's `trim`. A character is the group of its bytes.
abbrev continues : ℕ → Bool
continues c = leb 128 c && leb c 191

abbrev grouped : ℕ → List Text → List Text
grouped c [] = (c ∷ []) ∷ []
grouped c ([] ∷ rest) = (c ∷ []) ∷ rest
grouped c ((d ∷ char) ∷ rest) =
    if continues d then (c ∷ d ∷ char) ∷ rest else (c ∷ []) ∷ (d ∷ char) ∷ rest

chars : Text → List Text
chars [] = []
chars (c ∷ s) = grouped c (chars s)

-- `White_Space`: U+0009 to U+000D, U+0020, U+0085, U+00A0, U+1680, U+2000 to U+200A, U+2028,
-- U+2029, U+202F, U+205F, U+3000.
is_space : Text → Bool
is_space (c ∷ []) = (leb 9 c && leb c 13) || c == 32
is_space (c ∷ d ∷ []) = c == 0xC2 && (d == 0x85 || d == 0xA0)
is_space (c ∷ d ∷ e ∷ []) =
    (c == 0xE1 && (d == 0x9A && e == 0x80))
    || ((c == 0xE2 && (d == 0x80 && (leb e 0x8A || (e == 0xA8 || (e == 0xA9 || e == 0xAF)))))
        || ((c == 0xE2 && (d == 0x81 && e == 0x9F)) || (c == 0xE3 && (d == 0x80 && e == 0x80))))
is_space _ = false

trim_start : List Text → List Text
trim_start [] = []
trim_start (c ∷ s) = if is_space c then trim_start s else c ∷ s

abbrev unless_space : Text → List Text → List Text
unless_space c [] = if is_space c then [] else c ∷ []
unless_space c (d ∷ s) = c ∷ d ∷ s

trim_end : List Text → List Text
trim_end [] = []
trim_end (c ∷ s) = unless_space c (trim_end s)

unfoldable pub trim : Text → Text
unfolding chars is_space trim_start trim_end concat
trim s = concat (trim_end (trim_start (chars s)))

-- `to_ascii_lowercase`
unfoldable pub to_ascii_lowercase : Text → Text
to_ascii_lowercase [] = []
to_ascii_lowercase (c ∷ s) = (if leb b'A' c && leb c b'Z' then c + 32 else c) ∷ to_ascii_lowercase s

-- `split(c).next()`: the text before the first `c`.
unfoldable pub before : ℕ → Text → Text
before c [] = []
before c (d ∷ s) = if d == c then [] else d ∷ before c s

abbrev pub is_word : List Text → Text → Bool
is_word words w = any (text_eq w) words

-- An arm of a `match`: the texts that it takes and what it gives.
pub record Arm {ℓ} (A : Type ℓ) : Type ℓ where
  pub words : List Text
  pub value : A

abbrev pub arm {ℓ} : {A : Type ℓ} → List Text → A → Arm A
arm words value = record { words = words; value = value }

abbrev pub value_of {ℓ} : {A : Type ℓ} → Option (Arm A) → Option A
value_of none = none
value_of (some a) = some a.value

unfoldable pub match_arms {ℓ} : {A : Type ℓ} → List (Arm A) → Text → Option A
match_arms arms w = value_of (find (λ a. is_word a.words w) arms)

-- A format and its extension for each media type.
abbrev pub mime_arms : List (Arm (Text × Text))
mime_arms =
    arm (codes "application/x-lilypond" ∷ codes "text/x-lilypond" ∷ [])
      (codes "lilypond", codes "ly")
    ∷ arm
        (codes "application/vnd.recordare.musicxml+xml"
          ∷ codes "application/vnd.recordare.musicxml"
          ∷ [])
        (codes "musicxml", codes "musicxml")
    ∷ arm (codes "application/pdf" ∷ []) (codes "pdf", codes "pdf")
    ∷ arm (codes "image/png" ∷ []) (codes "image", codes "png")
    ∷ arm (codes "image/jpeg" ∷ []) (codes "image", codes "jpg")
    ∷ arm (codes "image/tiff" ∷ []) (codes "image", codes "tif")
    ∷ arm (codes "image/gif" ∷ []) (codes "image", codes "gif")
    ∷ arm (codes "image/webp" ∷ []) (codes "image", codes "webp")
    ∷ arm (codes "image/bmp" ∷ []) (codes "image", codes "bmp")
    ∷ []

abbrev pub base_of : Text → Text
base_of mime = to_ascii_lowercase (trim (before b';' mime))

unfoldable pub format_and_ext_for_mime : Text → Option (Text × Text)
unfolding match_arms text_eq to_ascii_lowercase trim before
format_and_ext_for_mime mime = match_arms mime_arms (base_of mime)

abbrev pub ext_arms : List (Arm Text)
ext_arms =
    arm (codes "ly" ∷ []) (codes "application/x-lilypond")
    ∷ arm (codes "musicxml" ∷ []) (codes "application/vnd.recordare.musicxml+xml")
    ∷ arm (codes "pdf" ∷ []) (codes "application/pdf")
    ∷ arm (codes "png" ∷ []) (codes "image/png")
    ∷ arm (codes "jpg" ∷ codes "jpeg" ∷ []) (codes "image/jpeg")
    ∷ arm (codes "tif" ∷ codes "tiff" ∷ []) (codes "image/tiff")
    ∷ arm (codes "gif" ∷ []) (codes "image/gif")
    ∷ arm (codes "webp" ∷ []) (codes "image/webp")
    ∷ arm (codes "bmp" ∷ []) (codes "image/bmp")
    ∷ []

unfoldable pub mime_for_ext : Text → Option Text
unfolding match_arms text_eq to_ascii_lowercase
mime_for_ext ext = match_arms ext_arms (to_ascii_lowercase ext)

-- `rsplit_once`: the texts before and behind the last `c`.
unfoldable pub rsplit_once : ℕ → Text → Option (Text × Text)
rsplit_once c [] = none
rsplit_once c (d ∷ s) = elim (rsplit_once c s) [
  | some (a, b) ↦ some (d ∷ a, b)
  | none ↦ if d == c then some ([], s) else none
]

abbrev pub is_nil : Text → Bool
is_nil [] = true
is_nil (c ∷ s) = false

unfoldable pub split_filename : Text → Option (Text × Text)
unfolding rsplit_once
split_filename filename = elim (rsplit_once b'.' filename) [
  | none ↦ none
  | some (stem, ext) ↦ if is_nil stem || is_nil ext then none else some (stem, ext)
]

abbrev pub behind : ℕ → Text → Text
behind c s = elim (rsplit_once c s) [ none ↦ s | some (a, b) ↦ b ]

abbrev stem_of : Text → Text
stem_of base = elim (rsplit_once b'.' base) [ none ↦ base | some (a, b) ↦ a ]

-- `rsplit(['/', '\\']).next()` is what stands behind the last of both.
unfoldable pub name_stem : Text → Option Text
unfolding rsplit_once trim
name_stem file_name =
    let stem = trim (stem_of (behind b'/' (behind 92 file_name))) in
    if is_nil stem then none else some stem

unfoldable pub webdav_filename : Text → Text → Option Text
unfolding format_and_ext_for_mime
webdav_filename name mime_type = elim (format_and_ext_for_mime mime_type) [
  | none ↦ none
  | some (format, ext) ↦ some (name ++ b'.' ∷ ext)
]

unfoldable pub derived_key : Text → Text → Option Text → Text → Text → Text
derived_key org arrangement (some voice) name ext =
    codes "orgs/"
    ++ org
    ++ codes "/arrangements/"
    ++ arrangement
    ++ codes "/voices/"
    ++ voice
    ++ b'/' ∷ (name ++ b'.' ∷ ext)
derived_key org arrangement none name ext =
    codes "orgs/"
    ++ org
    ++ codes "/arrangements/"
    ++ arrangement
    ++ codes "/score/"
    ++ name
    ++ b'.' ∷ ext
