-- ===== src/Listing.antt =====
-- lied/src/listing.rs: the sort and filter parameters of a listing, and optimistic concurrency.
-- A time is the number of microseconds since the epoch.
pub mod Escapes
pub mod Allowed
pub mod Etag
mod Examples
use lied.Prelude.{
  ℕ, zero, suc, ◌+◌, ◌-◌, ◌*◌, ◌/◌, Bool, true, false, not, ◌&&◌, ◌||◌, Option, none, some, List,
  [], ◌∷◌, ◌++◌, map, any, find, Result, ok, err, ◌==◌, leb, if◌then◌else◌,
}
use lied.Prelude.Int.{ℤ, pos, eq_ℤ}
use lied.Prelude.Text.{Text, codes, text_eq}
use lied.Prelude.Decimal.{decimal, parse_int}
use lied.Prelude.Utf8.{from_utf8_lossy}

pub data SortDirection : Type 0 where
  ascending descending : SortDirection

unfoldable pub as_sql : SortDirection → Text
as_sql ascending = codes "ASC"
as_sql descending = codes "DESC"

-- A report: the path and the text of each error.
abbrev pub Report : Type 0
Report = List (Text × Text)

-- `str::split_once`, for a separator of one byte
unfoldable pub split_once : ℕ → Text → Option (Text × Text)
split_once sep [] = none
split_once sep (c ∷ s) =
    let rest = split_once sep s in
    if c == sep then some ([], s) else elim rest [ none ↦ none | some (a, b) ↦ some (c ∷ a, b) ]

-- `join(", ")`
unfoldable pub join : List Text → Text
join [] = []
join (s ∷ []) = s
join (s ∷ t ∷ rest) = s ++ codes ", " ++ join (t ∷ rest)

abbrev pub names_of : List (Text × Text) → List Text
names_of = map (λ entry. entry.0)

abbrev pub unknown_field : Text → List (Text × Text) → Report
unknown_field field allowlist =
    (
      codes "sort",
      codes "unknown sort field '" ++ field ++ codes "'; allowed: " ++ join (names_of allowlist),
    )
    ∷ []

abbrev pub unknown_direction : Text → Report
unknown_direction dir =
    (codes "sort", codes "unknown sort direction '" ++ dir ++ codes "'; allowed: asc, desc") ∷ []

unfoldable pub direction_of : Text → Option SortDirection
unfolding text_eq
direction_of dir =
    if text_eq dir (codes "asc")
    then some ascending
    else if text_eq dir (codes "desc")
    then some descending
    else none

unfoldable pub fragment_of : Text → List (Text × Text) → Option Text
unfolding text_eq
fragment_of field [] = none
fragment_of field ((name, fragment) ∷ allowlist) =
    let rest = fragment_of field allowlist in if text_eq name field then some fragment else rest

-- `raw.split_once(':')`, ascending by default
abbrev pub field_and_direction : Text → Text × Text
field_and_direction raw = elim (split_once b':' raw) [
  | some (field, dir) ↦ (field, dir)
  | none ↦ (raw, codes "asc")
]

-- The part of `resolve_sort` for a parameter that is there.
unfoldable pub resolve_text : Text → List (Text × Text) → Result Report (Text × SortDirection)
unfolding split_once join direction_of fragment_of
resolve_text raw allowlist =
    let (field, dir) = field_and_direction raw in
    elim (fragment_of field allowlist) [
      | none ↦ err (unknown_field field allowlist)
      | some fragment ↦ elim (direction_of dir) [
        | none ↦ err (unknown_direction dir)
        | some direction ↦ ok (fragment, direction)
      ]
    ]

unfoldable pub resolve_sort :
    Option Text → List (Text × Text) → Text × SortDirection → Result Report (Text × SortDirection)
unfolding resolve_text
resolve_sort none allowlist default = ok default
resolve_sort (some []) allowlist default = ok default
resolve_sort (some (c ∷ raw)) allowlist default = resolve_text (c ∷ raw) allowlist

-- A digit of `u8::from_str_radix(_, 16)`
unfoldable pub hex_digit : ℕ → Option ℕ
hex_digit c =
    if leb b'0' c && leb c b'9'
    then some (c - b'0')
    else if leb b'a' c && leb c b'f'
    then some (c - b'a' + 10)
    else if leb b'A' c && leb c b'F'
    then some (c - b'A' + 10)
    else none

-- `u8::from_str_radix` on two bytes: the first may be a sign `+`.
unfoldable pub hex_byte : ℕ → ℕ → Option ℕ
unfolding hex_digit
hex_byte a b = elim (hex_digit b) [
  | none ↦ none
  | some low ↦
      if a == b'+'
      then some low
      else elim (hex_digit a) [ none ↦ none | some high ↦ some (high * 16 + low) ]
]

abbrev pub plain : ℕ → ℕ
plain c = if c == b'+' then b' ' else c

-- The loop, which looks at the bytes from `i` on.
unfoldable pub decoded_bytes : Text → Text
unfolding hex_byte
decoded_bytes [] = []
decoded_bytes (c ∷ []) = plain c ∷ []
decoded_bytes (c ∷ a ∷ []) = plain c ∷ decoded_bytes (a ∷ [])
decoded_bytes (c ∷ a ∷ b ∷ s) = elim (c == b'%') [
  | false ↦ plain c ∷ decoded_bytes (a ∷ b ∷ s)
  | true ↦ elim (hex_byte a b) [
    | none ↦ c ∷ decoded_bytes (a ∷ b ∷ s)
    | some byte ↦ byte ∷ decoded_bytes s
  ]
]

unfoldable pub percent_decode : Text → Text
unfolding decoded_bytes from_utf8_lossy
percent_decode input = from_utf8_lossy (decoded_bytes input)

-- The pairs of the map stand in the order in which it is walked.
abbrev pub unknown_filter : Text → List Text → Text × Text
unknown_filter field allowlist = (
  codes "filter",
  codes "unknown filter field '" ++ field ++ codes "'; allowed: " ++ join allowlist,
)

abbrev pub is_allowed : List Text → Text → Bool
is_allowed allowlist field = any (λ name. text_eq name field) allowlist

-- The loop, with what is resolved and reported so far.
unfoldable pub resolve_from :
    List Text → List (Text × Text) → List (Text × Text) → Report → List (Text × Text) × Report
unfolding join text_eq
resolve_from allowlist [] resolved report = (resolved, report)
resolve_from allowlist ((field, value) ∷ raw) resolved report = elim (is_allowed allowlist field) [
  | true ↦ resolve_from allowlist raw (resolved ++ (field, value) ∷ []) report
  | false ↦ resolve_from allowlist raw resolved (report ++ unknown_filter field allowlist ∷ [])
]

-- `if report.is_empty()`
abbrev pub verdict : List (Text × Text) × Report → Result Report (List (Text × Text))
verdict (resolved, []) = ok resolved
verdict (resolved, e ∷ report) = err (e ∷ report)

unfoldable pub resolve_filters : List (Text × Text) → List Text → Result Report (List (Text × Text))
unfolding resolve_from
resolve_filters raw allowlist = verdict (resolve_from allowlist raw [] [])

abbrev pub timestamp_millis : ℕ → ℕ
timestamp_millis time = time / 1000

unfoldable pub etag_for : ℕ → Text
unfolding decimal
etag_for updated_at =
    let millis = timestamp_millis updated_at in b'"' ∷ (decimal (suc millis) millis ++ b'"' ∷ [])

unfoldable pub trim_start : (ℕ → Bool) → Text → Text
trim_start p [] = []
trim_start p (c ∷ s) = let rest = trim_start p s in if p c then rest else c ∷ s

unfoldable pub trim_end : (ℕ → Bool) → Text → Text
trim_end p [] = []
trim_end p (c ∷ s) = elim (trim_end p s) [ [] ↦ if p c then [] else c ∷ [] | d ∷ t ↦ c ∷ d ∷ t ]

-- `trim_matches`
unfoldable pub trim : (ℕ → Bool) → Text → Text
unfolding trim_start trim_end
trim p s = trim_end p (trim_start p s)

-- White space in a header, which is ASCII.
abbrev pub is_space : ℕ → Bool
is_space c = c == b' ' || (leb 9 c && leb c 13)

abbrev pub is_quote : ℕ → Bool
is_quote c = c == b'"'

abbrev pub i64_max : ℕ
i64_max = 9223372036854775807

unfoldable pub parse_if_match : Option Text → Option ℤ
unfolding trim parse_int
parse_if_match none = none
parse_if_match (some v) = parse_int i64_max (trim is_quote (trim is_space v))

unfoldable pub check_if_match : Option Text → ℕ → Result (Unit {0}) (Unit {0})
unfolding parse_if_match
check_if_match header_value updated_at = elim (parse_if_match header_value) [
  | none ↦ err tt
  | some supplied ↦ if eq_ℤ supplied (pos (timestamp_millis updated_at)) then ok tt else err tt
]
