-- ===== src/Prelude/Utf8/Valid.antt =====
-- `String::from_utf8_lossy` keeps what `str::from_utf8` takes.
use lied.Prelude.{
  ℕ, ◌≡◌, sym, ◌∙◌, ap, true, ◌&&◌, List, [], ◌∷◌, ◌++◌, leb, inl, inr, Option-cases, arith,
}
use mathlib.Core.List.{append_assoc, append-nil}
use lied.Prelude.Text.{Text}
use lied.Prelude.Utf8.{followers, follow, is_utf8, lossy, from_utf8_lossy}

lossy-follow :
    (read : Text) (ranges : List (ℕ × ℕ)) (s : Text)
    → follow ranges s ≡ true
    → lossy read ranges s ≡ read ++ s
unfolding follow lossy
lossy-follow read [] [] h = sym (append-nil read)
lossy-follow read (r ∷ rest) [] h = absurd (cc)
lossy-follow read ((low, high) ∷ rest) (c ∷ s) h =
    let fits : (leb low c && leb c high) ≡ true = ground arith in
    let behind : follow rest s ≡ true = ground arith in
    rw (lossy, fits) (lossy-follow (read ++ c ∷ []) rest s behind ∙ append_assoc read (c ∷ []) s)
lossy-follow read [] (c ∷ s) h = elim (Option-cases (followers c)) [
  | inl e ↦ let h' = rw (follow, e) at h in absurd (cc)
  | inr (rest, e) ↦
      rw (lossy, e) (ap (λ t. read ++ t) (lossy-follow (c ∷ []) rest s (rw (follow, e) at h)))
]

pub from_utf8_lossy-is_utf8 : (s : Text) → is_utf8 s ≡ true → from_utf8_lossy s ≡ s
unfolding is_utf8 from_utf8_lossy
from_utf8_lossy-is_utf8 s h = lossy-follow [] [] s h
