-- ===== src/Listing/Examples.antt =====
-- Tests of lied/src/listing.rs.
use lied.Prelude.{◌≡◌, ◌/◌, ◌↔◌, ◌⊎◌, refl, none, some, List, [], ◌∷◌, ok, err, arith}
use lied.Prelude.Text.{Text, codes, text_eq}
use lied.Prelude.Decimal.{decimal, parse_int, parse_digits}
use lied.Listing.{
  ascending, descending, resolve_sort, split_once, fragment_of, direction_of, join, percent_decode,
  decoded_bytes, hex_byte, hex_digit, etag_for, check_if_match,
}
use lied.Listing.Allowed.{IsListed, resolve_sort-IsListed}
use lied.Prelude.Utf8.{is_utf8, follow, from_utf8_lossy, lossy}
use lied.Listing.Escapes.{percent_encode, percent_decode-percent_encode}
use lied.Listing.Etag.{check_if_match-etag_for}

abbrev allowlist : List (Text × Text)
allowlist = (codes "name", codes "o.name") ∷ (codes "createdAt", codes "o.created_at") ∷ []

by_date :
    resolve_sort (some (codes "createdAt:desc")) allowlist (codes "o.name", ascending)
    ≡ ok (codes "o.created_at", descending)
unfolding resolve_sort split_once text_eq fragment_of direction_of
by_date = refl

no_column :
    resolve_sort (some (codes "id")) allowlist (codes "o.name", ascending)
    ≡ err ((codes "sort", codes "unknown sort field 'id'; allowed: name, createdAt") ∷ [])
unfolding resolve_sort split_once text_eq fragment_of join
no_column = refl

resolve_sort-IsListed_example :
    (codes "o.created_at" ≡ codes "o.name") ⊎ IsListed (codes "o.created_at") allowlist
resolve_sort-IsListed_example =
    resolve_sort-IsListed (some (codes "createdAt:desc")) allowlist (codes "o.name", ascending)
      by_date

abbrev raw : List (Text × Text)
raw = (codes "role", codes "owner") ∷ (codes "status", codes "active") ∷ []

decoded :
    (percent_decode (codes "a+b%20c%2") ≡ codes "a b c%2")
    × (percent_decode (codes "filter%5Bstatus%5D") ≡ codes "filter[status]")
unfolding percent_decode decoded_bytes from_utf8_lossy lossy hex_byte hex_digit
decoded = (refl, refl)

-- `from_str_radix` takes a sign, so that this is read as the byte 15.
sign_in_escape : percent_decode (codes "%+f") ≡ 15 ∷ []
unfolding percent_decode decoded_bytes from_utf8_lossy lossy hex_byte hex_digit
sign_in_escape = refl

percent_decode-percent_encode_example :
    percent_decode (percent_encode (codes "100% [x]")) ≡ codes "100% [x]"
unfolding is_utf8 follow
percent_decode-percent_encode_example =
    percent_decode-percent_encode (codes "100% [x]") (ground arith) refl

tags :
    (etag_for 1700000000123456 ≡ codes "\"1700000000123\"")
    × (check_if_match (some (codes " \"1700000000123\"")) 1700000000123999 ≡ ok tt)
    × (check_if_match (some (codes "*")) 1700000000123999 ≡ err tt)
    × (check_if_match none 1700000000123999 ≡ err tt)
unfolding etag_for decimal check_if_match parse_int parse_digits
tags = (refl, refl, refl, refl)

check_if_match-etag_for_example :
    (check_if_match (some (etag_for 1700000000123456)) 1700000000124000 ≡ ok tt)
    ↔ (1700000000123456 / 1000 ≡ 1700000000124000 / 1000)
check_if_match-etag_for_example =
    check_if_match-etag_for 1700000000123456 1700000000124000 (omega arith)
