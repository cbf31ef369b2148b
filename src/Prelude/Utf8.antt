-- ===== src/Prelude/Utf8.antt =====
-- The conversions of bytes to strings in the standard library.
pub mod Valid
use lied.Prelude.{
  ℕ, Bool, true, false, ◌&&◌, Option, none, some, List, [], ◌∷◌, ◌++◌, leb, ltb, if◌then◌else◌,
}
use lied.Prelude.Text.{Text}

-- `str::from_utf8` takes the well-formed sequences of the Unicode standard. The bounds of the bytes
-- that have to follow a first byte:
abbrev continuation : ℕ × ℕ
continuation = (0x80, 0xBF)

abbrev pub followers : ℕ → Option (List (ℕ × ℕ))
followers c =
    if ltb c 0x80
    then some []
    else if leb 0xC2 c && leb c 0xDF
    then some (continuation ∷ [])
    else if leb 0xE0 c && leb c 0xE0
    then some ((0xA0, 0xBF) ∷ continuation ∷ [])
    else if leb 0xED c && leb c 0xED
    then some ((0x80, 0x9F) ∷ continuation ∷ [])
    else if leb 0xE1 c && leb c 0xEF
    then some (continuation ∷ continuation ∷ [])
    else if leb 0xF0 c && leb c 0xF0
    then some ((0x90, 0xBF) ∷ continuation ∷ continuation ∷ [])
    else if leb 0xF1 c && leb c 0xF3
    then some (continuation ∷ continuation ∷ continuation ∷ [])
    else if leb 0xF4 c && leb c 0xF4
    then some ((0x80, 0x8F) ∷ continuation ∷ continuation ∷ [])
    else none

unfoldable pub follow : List (ℕ × ℕ) → Text → Bool
follow [] [] = true
follow (r ∷ rest) [] = false
follow ((low, high) ∷ rest) (c ∷ s) = leb low c && (leb c high && follow rest s)
follow [] (c ∷ s) = elim (followers c) [ none ↦ false | some rest ↦ follow rest s ]

unfoldable pub is_utf8 : Text → Bool
unfolding follow
is_utf8 s = follow [] s

-- `String::from_utf8_lossy` puts U+FFFD for a sequence that breaks off, and goes on with the byte
-- that does not fit. `read` is the sequence so far, with the bounds of what has to follow.
abbrev pub replacement : Text
replacement = 0xEF ∷ 0xBF ∷ 0xBD ∷ []

unfoldable pub lossy : Text → List (ℕ × ℕ) → Text → Text
lossy read [] [] = read
lossy read (r ∷ rest) [] = replacement
lossy read [] (c ∷ s) =
    let alone = lossy [] [] s in
    read ++ elim (followers c) [ none ↦ replacement ++ alone | some rest ↦ lossy (c ∷ []) rest s ]
lossy read ((low, high) ∷ rest) (c ∷ s) = elim (leb low c && leb c high) [
  | true ↦ lossy (read ++ c ∷ []) rest s
  | false ↦ replacement ++ elim (followers c) [
    | none ↦ replacement ++ lossy [] [] s
    | some rest' ↦ lossy (c ∷ []) rest' s
  ]
]

unfoldable pub from_utf8_lossy : Text → Text
unfolding lossy
from_utf8_lossy s = lossy [] [] s
