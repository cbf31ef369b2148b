-- ===== src/Prelude/Decimal.antt =====
-- Decimal numbers as Rust's standard library prints and parses them.
use mathlib.Core.List.{concat-ne-nil}
use lied.Prelude.{
  ℕ, zero, suc, ◌+◌, ◌-◌, ◌*◌, ◌/◌, ◌%◌, ◌<◌, ◌≤◌, ◌≡◌, ◌≢◌, refl, ◌∙◌, ap, Bool, true, false, ◌&&◌,
  Option, none, some, [], ◌∷◌, ◌++◌, inl, inr, All, All-append, ◌==◌, leb, ltb, if◌then◌else◌,
  arith, Bool-cases,
}
use lied.Prelude.Int.{ℤ, pos, negsuc}
use lied.Prelude.Text.{Text}

abbrev pub is_digit : ℕ → Bool
is_digit c = leb b'0' c && leb c b'9'

-- The digits behind a `+` or no sign: each step is checked for overflow of the greatest number.
unfoldable pub parse_digits : ℕ → ℕ → Text → Option ℕ
parse_digits top n [] = some n
parse_digits top n (c ∷ s) =
    let n' = n * 10 + (c - b'0') in
    let rest = parse_digits top n' s in
    if is_digit c then (if ltb top n' then none else rest) else none

-- The digits behind a `-`, which may go one further: the number is minus the result.
unfoldable pub parse_negative : ℕ → ℕ → Text → Option ℕ
parse_negative top n [] = some n
parse_negative top n (c ∷ s) =
    let n' = n * 10 + (c - b'0') in
    let rest = parse_negative top n' s in
    if is_digit c then (if ltb (suc top) n' then none else rest) else none

abbrev pub minus : ℕ → ℤ
minus n = elim n [ zero ↦ pos 0 | suc k ↦ negsuc k ]

-- `str::parse` of a signed type whose greatest number is `top`
unfoldable pub parse_int : ℕ → Text → Option ℤ
parse_int top [] = none
parse_int top (c ∷ []) = if is_digit c then some (pos (c - b'0')) else none
parse_int top (c ∷ d ∷ s) =
    if c == b'+'
    then elim (parse_digits top 0 (d ∷ s)) [ none ↦ none | some n ↦ some (pos n) ]
    else if c == b'-'
    then elim (parse_negative top 0 (d ∷ s)) [ none ↦ none | some n ↦ some (minus n) ]
    else elim (parse_digits top 0 (c ∷ d ∷ s)) [ none ↦ none | some n ↦ some (pos n) ]

-- `format!("{}", n)`; a number below the fuel has no more digits than that.
unfoldable pub decimal : ℕ → ℕ → Text
decimal zero n = []
decimal (suc fuel) n =
    let more = decimal fuel (n / 10) ++ (b'0' + n % 10) ∷ [] in
    if ltb n 10 then (b'0' + n) ∷ [] else more

abbrev pub IsDigits : Text → Type 0
IsDigits = All (λ c. is_digit c ≡ true)

pub decimal-IsDigits : (fuel n : ℕ) → IsDigits (decimal fuel n)
unfolding decimal
decimal-IsDigits zero n = tt
decimal-IsDigits (suc fuel) n = elim (Bool-cases (ltb n 10)) [
  | inl e ↦ rw e (ground arith, tt)
  | inr e ↦ rw e (
      All-append (λ c. is_digit c ≡ true) (decimal fuel (n / 10)) _ (decimal-IsDigits fuel (n / 10))
        (ground arith, tt))
]

pub decimal-ne-nil : (fuel n : ℕ) → decimal (suc fuel) n ≢ []
unfolding decimal
decimal-ne-nil fuel n e = elim (Bool-cases (ltb n 10)) [
  | inl k ↦ let f = rw k at e in cc
  | inr k ↦ let f = rw k at e in concat-ne-nil _ _ f
]

infixl 5 ◌>>=◌
abbrev ◌>>=◌ : Option ℕ → (ℕ → Option ℕ) → Option ℕ
none >>= f = none
some n >>= f = f n

-- A number type with at least one digit.
module _ (top : ℕ) (large : 9 ≤ top) where
  parse_digits-append :
      (n : ℕ) (s t : Text)
      → parse_digits top n (s ++ t) ≡ (parse_digits top n s >>= λ m. parse_digits top m t)
  unfolding parse_digits
  parse_digits-append n [] t = refl
  parse_digits-append n (c ∷ s) t = ground (arith, parse_digits-append (n * 10 + (c - b'0')) s t)

  parse_digits_one :
      (n d : ℕ)
      → d < 10
      → n * 10 + d ≤ top
      → parse_digits top n ((b'0' + d) ∷ []) ≡ some (n * 10 + d)
  unfolding parse_digits
  parse_digits_one n d h k = ground arith

  parse_digits-decimal :
      (fuel n : ℕ) → n < fuel → n ≤ top → parse_digits top 0 (decimal fuel n) ≡ some n
  unfolding decimal
  parse_digits-decimal zero n h k = absurd (omega arith)
  parse_digits-decimal (suc fuel) n h k = elim (Bool-cases (ltb n 10)) [
    | inl e ↦ rw e (parse_digits_one 0 n (ground arith) (omega arith) ∙ ap some (omega arith))
    | inr e ↦
        let ih = parse_digits-decimal fuel (n / 10) (ground arith) (omega arith) in
        let one = parse_digits_one (n / 10) (n % 10) (omega arith) (omega arith) in
        let value : n / 10 * 10 + n % 10 ≡ n = omega arith in
        rw (e, parse_digits-append 0 (decimal fuel (n / 10)) ((b'0' + n % 10) ∷ []), ih)
          (one ∙ ap some value)
  ]

  single : (c : ℕ) → is_digit c ≡ true → parse_digits top 0 (c ∷ []) ≡ some (c - b'0')
  unfolding parse_digits
  single c d = ground arith

  -- On digits alone the parser of numbers is the plain loop.
  parse_int_digits :
      (s : Text) {n : ℕ}
      → IsDigits s
      → s ≢ []
      → parse_digits top 0 s ≡ some n
      → parse_int top s ≡ some (pos n)
  unfolding parse_int
  parse_int_digits [] d ne h = absurd (ne refl)
  parse_int_digits (c ∷ []) {n} (d, _) ne h = let e = single c d in ground arith
  parse_int_digits (c ∷ e ∷ s) (d, ds) ne h =
      let plus : c == b'+' ≡ false = ground arith in
      let minus : c == b'-' ≡ false = ground arith in rw (plus, minus, h)

  -- A printed number that the type holds is read back.
  pub parse_int-decimal : (n : ℕ) → n ≤ top → parse_int top (decimal (suc n) n) ≡ some (pos n)
  parse_int-decimal n h =
      parse_int_digits (decimal (suc n) n) (decimal-IsDigits (suc n) n) (decimal-ne-nil n n)
        (parse_digits-decimal (suc n) n (omega arith) h)
