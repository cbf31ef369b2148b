-- ===== src/Listing/Etag.antt =====
-- The version tags of lied/src/listing.rs.
use lied.Prelude.{
  ℕ, suc, ◌≤◌, ◌≡◌, ◌≢◌, refl, ◌∙◌, ap, Bool, true, false, some, [], ◌∷◌, ◌++◌, inl, inr, All,
  All-imp, ◌↔◌, ok, Bool-cases, arith,
}
use lied.Prelude.Int.{pos, eq_ℤ}
use lied.Prelude.Text.{Text}
use lied.Prelude.Decimal.{
  is_digit, IsDigits, decimal, decimal-IsDigits, decimal-ne-nil, parse_int-decimal,
}
use lied.Listing.{
  timestamp_millis, etag_for, trim_start, trim_end, trim, is_space, is_quote, i64_max,
  parse_if_match, check_if_match,
}

module _ (p : ℕ → Bool) where
  trim_start_stops : (c : ℕ) (s : Text) → p c ≡ false → trim_start p (c ∷ s) ≡ c ∷ s
  unfolding trim_start
  trim_start_stops c s h = rw h refl

  trim_end_stops : (s : Text) (c : ℕ) → p c ≡ false → trim_end p (s ++ c ∷ []) ≡ s ++ c ∷ []
  unfolding trim_end
  trim_end_stops [] c h = rw h refl
  trim_end_stops (d ∷ []) c h = rw (trim_end, h) refl
  trim_end_stops (d ∷ e ∷ s) c h = rw (trim_end, trim_end_stops (e ∷ s) c h) refl

  trim_end_drops : (s : Text) (c : ℕ) → p c ≡ true → trim_end p (s ++ c ∷ []) ≡ trim_end p s
  unfolding trim_end
  trim_end_drops [] c h = rw h refl
  trim_end_drops (d ∷ s) c h = rw (trim_end, trim_end_drops s c h) refl

  trim_end_keeps : (s : Text) → All (λ c. p c ≡ false) s → trim_end p s ≡ s
  unfolding trim_end
  trim_end_keeps [] _ = refl
  trim_end_keeps (c ∷ []) (h, _) = rw h refl
  trim_end_keeps (c ∷ d ∷ s) (h, hs) = rw (trim_end, trim_end_keeps (d ∷ s) hs) refl

-- A text in quotes without spaces around it.
trim_quoted : (s : Text) → trim is_space (b'"' ∷ (s ++ b'"' ∷ [])) ≡ b'"' ∷ (s ++ b'"' ∷ [])
unfolding trim
trim_quoted s =
    ap (trim_end is_space) (trim_start_stops is_space b'"' (s ++ b'"' ∷ []) refl)
    ∙ trim_end_stops is_space (b'"' ∷ s) b'"' refl

unquoted : (s : Text) → IsDigits s → s ≢ [] → trim is_quote (b'"' ∷ (s ++ b'"' ∷ [])) ≡ s
unfolding trim trim_start
unquoted [] _ ne = absurd (ne refl)
unquoted (c ∷ s) (d, ds) ne =
    let no_quote : is_quote c ≡ false = ground arith in
    let none_quoted =
      All-imp (λ e. is_digit e ≡ true) (λ e. is_quote e ≡ false) (λ e k. ground arith) (c ∷ s)
        (d, ds) in
    rw no_quote
      (trim_end_drops is_quote (c ∷ s) b'"' refl ∙ trim_end_keeps is_quote (c ∷ s) none_quoted)

pub parse_if_match-etag_for :
    (time : ℕ)
    → timestamp_millis time ≤ i64_max
    → parse_if_match (some (etag_for time)) ≡ some (pos (timestamp_millis time))
unfolding parse_if_match etag_for
parse_if_match-etag_for time h =
    let millis = timestamp_millis time in
    let digits = decimal (suc millis) millis in
    rw
      (
        trim_quoted digits,
        unquoted digits (decimal-IsDigits (suc millis) millis) (decimal-ne-nil millis millis),
      )
      (parse_int-decimal i64_max (omega arith) millis h)

eq_ℤ_pos : (a b : ℕ) → (eq_ℤ (pos a) (pos b) ≡ true) ↔ (a ≡ b)
eq_ℤ_pos a b = ground arith

-- The version tag of one state of an entity is accepted for a state if and only if both were
-- updated in the same millisecond, for a time whose milliseconds an `i64` holds.
pub check_if_match-etag_for :
    (time updated_at : ℕ)
    → timestamp_millis time ≤ i64_max
    → (check_if_match (some (etag_for time)) updated_at ≡ ok tt)
      ↔ (timestamp_millis time ≡ timestamp_millis updated_at)
unfolding check_if_match
check_if_match-etag_for time updated_at h =
    let read = parse_if_match-etag_for time h in
    let a = timestamp_millis time in
    let b = timestamp_millis updated_at in
    elim (Bool-cases (eq_ℤ (pos a) (pos b))) [
      | inl e ↦ (λ _. (eq_ℤ_pos a b).0 e, λ _. rw (check_if_match, read, e) refl)
      | inr e ↦ (
        λ k. let k' = rw (check_if_match, read, e) at k in absurd (cc),
        λ k. let e' = (eq_ℤ_pos a b).1 k in absurd (cc),
      )
    ]
