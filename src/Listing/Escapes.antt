-- ===== src/Listing/Escapes.antt =====
-- `percent_decode` of lied/src/listing.rs undoes the escapes of a query string.
use lied.Prelude.{
  ℕ, ◌+◌, ◌-◌, ◌*◌, ◌/◌, ◌%◌, ◌<◌, ◌≡◌, refl, ◌∙◌, ap, true, false, some, [], ◌∷◌, All, ltb, ◌==◌,
  if◌then◌else◌, arith, inl, inr, Bool-cases,
}
use lied.Prelude.Text.{Text}
use lied.Prelude.Utf8.{is_utf8, from_utf8_lossy}
use lied.Prelude.Utf8.Valid.{from_utf8_lossy-is_utf8}
use lied.Listing.{hex_digit, hex_byte, decoded_bytes, percent_decode}

abbrev pub hex_char : ℕ → ℕ
hex_char n = if ltb n 10 then b'0' + n else b'A' + (n - 10)

-- `%XX` for each byte
unfoldable pub percent_encode : Text → Text
percent_encode [] = []
percent_encode (c ∷ s) = b'%' ∷ hex_char (c / 16) ∷ hex_char (c % 16) ∷ percent_encode s

hex_digit-hex_char : (n : ℕ) → n < 16 → hex_digit (hex_char n) ≡ some n
unfolding hex_digit
hex_digit-hex_char n h = elim (Bool-cases (ltb n 10)) [
  | inl e ↦ rw e (ground arith)
  | inr e ↦ rw e (ground arith)
]

hex_char_no_sign : (n : ℕ) → (hex_char n == b'+') ≡ false
hex_char_no_sign n = elim (Bool-cases (ltb n 10)) [
  | inl e ↦ rw e (ground arith)
  | inr e ↦ rw e (ground arith)
]

hex_byte-hex_char : (c : ℕ) → c < 256 → hex_byte (hex_char (c / 16)) (hex_char (c % 16)) ≡ some c
unfolding hex_byte
hex_byte-hex_char c h =
    let high = hex_digit-hex_char (c / 16) (omega arith) in
    let low = hex_digit-hex_char (c % 16) (omega arith) in
    let value : c / 16 * 16 + c % 16 ≡ c = omega arith in
    rw (hex_byte, low, hex_char_no_sign (c / 16), high) (ap some value)

decoded_bytes-percent_encode :
    (s : Text) → All (λ c. c < 256) s → decoded_bytes (percent_encode s) ≡ s
unfolding decoded_bytes percent_encode
decoded_bytes-percent_encode [] _ = refl
decoded_bytes-percent_encode (c ∷ s) (h, hs) =
    rw (decoded_bytes, hex_byte-hex_char c h) (ap (λ t. c ∷ t) (decoded_bytes-percent_encode s hs))

-- Decoding gives back every UTF-8 text that is sent with each of its bytes escaped.
pub percent_decode-percent_encode :
    (s : Text) → All (λ c. c < 256) s → is_utf8 s ≡ true → percent_decode (percent_encode s) ≡ s
unfolding percent_decode
percent_decode-percent_encode s bytes valid =
    ap from_utf8_lossy (decoded_bytes-percent_encode s bytes) ∙ from_utf8_lossy-is_utf8 s valid
