-- ===== src/Prelude/Text.antt =====
-- A text is the list of its bytes. All the separators that the code looks for are ASCII, so that
-- a search over the bytes is a search over the characters.
use Prim.Native.Char.{code}
use Prim.Native.String.{String}
use lied.Prelude.Tests.{◌==◌}
use Prim.Native.Nat.{ℕ}
use mathlib.Core.Path.{◌≡◌, refl, ap, sym, ◌∙◌}
use mathlib.Core.Bool.{Bool, true, false, ◌&&◌}
use mathlib.Core.List.{List, [], ◌∷◌, ◌++◌, append_assoc, append-nil}
use native.Mathlib.Omega.{arith}

abbrev pub Text : Type 0
Text = List ℕ

-- The bytes of an ASCII literal.
abbrev pub codes : String → Text
codes String.[] = []
codes (String.◌∷◌ c s) = code c ∷ codes s

unfoldable pub text_eq : Text → Text → Bool
text_eq [] [] = true
text_eq [] (d ∷ t) = false
text_eq (c ∷ s) [] = false
text_eq (c ∷ s) (d ∷ t) = c == d && text_eq s t

pub text_eq_refl : (s : Text) → text_eq s s ≡ true
unfolding text_eq
text_eq_refl [] = refl
text_eq_refl (c ∷ s) = ground (arith, text_eq_refl s)

pub text_eq→eq : (s t : Text) → text_eq s t ≡ true → s ≡ t
unfolding text_eq
text_eq→eq [] [] h = refl
text_eq→eq [] (d ∷ t) h = cc
text_eq→eq (c ∷ s) [] h = cc
text_eq→eq (c ∷ s) (d ∷ t) h = ground (arith, text_eq→eq s t)

pub text_eq_sym : (s t : Text) → text_eq s t ≡ text_eq t s
unfolding text_eq
text_eq_sym [] [] = refl
text_eq_sym [] (d ∷ t) = refl
text_eq_sym (c ∷ s) [] = refl
text_eq_sym (c ∷ s) (d ∷ t) = ground (arith, text_eq_sym s t)

unfoldable pub concat : List Text → Text
concat [] = []
concat (s ∷ ss) = s ++ concat ss

pub concat-snoc : (ss : List Text) (s : Text) → concat (ss ++ s ∷ []) ≡ concat ss ++ s
unfolding concat
concat-snoc [] s = append-nil s
concat-snoc (t ∷ ss) s = ap (λ r. t ++ r) (concat-snoc ss s) ∙ sym (append_assoc t (concat ss) s)
