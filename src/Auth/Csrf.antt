-- ===== src/Auth/Csrf.antt =====
-- lied/src/auth/csrf.rs: the token that a request to the console carries back. The values of headers
-- are those that are visible ASCII, as others are ignored.
pub mod Checked
pub mod Fields
pub mod Cookies
mod Examples
use lied.Prelude.{
  ℕ, Bool, true, false, not, ◌&&◌, ◌||◌, Option, none, some, List, [], ◌∷◌, ◌++◌, any, ◌==◌,
  if◌then◌else◌,
}
use lied.Prelude.Text.{Text, codes, text_eq}
use lied.Prelude.Utf8.{is_utf8, from_utf8_lossy}
use lied.Listing.{decoded_bytes}

-- `body` is none where it cannot be read or is too large.
pub record Request : Type 0 where
  pub method : Text
  pub path : Text
  pub query : Option Text
  pub content_type : Option Text
  pub csrf_header : Option Text
  pub cookies : List Text
  pub body : Option Text

-- What the session store holds for the token, and whether it can be read and written.
pub record Session : Type 0 where
  pub token : Option Text
  pub is_readable : Bool
  pub is_writable : Bool

-- `header_value` is `HeaderValue::from_str`.
pub record Server : Type 0 where
  pub secure_cookies : Bool
  pub header_value : Text → Option Text

-- The handler is run, and a cookie added to its response; or the middleware answers.
pub data Outcome : Type 0 where
  runs : Option Text → Outcome
  csrf_rejection internal_error : Outcome

abbrev csrf_exempt_paths : List Text
csrf_exempt_paths = codes "/login" ∷ codes "/logout" ∷ []

abbrev state_changing_methods : List Text
state_changing_methods = codes "POST" ∷ codes "PUT" ∷ codes "PATCH" ∷ codes "DELETE" ∷ []

unfoldable pub is_state_changing : Request → Bool
unfolding text_eq
is_state_changing r =
    any (text_eq r.method) state_changing_methods && not (any (text_eq r.path) csrf_exempt_paths)

unfoldable pub starts_with : Text → Text → Bool
starts_with [] s = true
starts_with (c ∷ prefix) [] = false
starts_with (c ∷ prefix) (d ∷ s) = c == d && starts_with prefix s

-- In a header that is visible ASCII, white space is the space and the tab.
unfoldable pub trim_start : Text → Text
trim_start [] = []
trim_start (c ∷ s) = let rest = trim_start s in if c == b' ' || c == 9 then rest else c ∷ s

abbrev type_starts : Text → Option Text → Bool
type_starts prefix none = false
type_starts prefix (some content_type) = starts_with prefix (trim_start content_type)

unfoldable pub is_multipart : Request → Bool
unfolding starts_with trim_start
is_multipart r = type_starts (codes "multipart/") r.content_type

unfoldable pub is_form_urlencoded : Request → Bool
unfolding starts_with trim_start
is_form_urlencoded r = type_starts (codes "application/x-www-form-urlencoded") r.content_type

abbrev pub add_first : ℕ → List Text → List Text
add_first c [] = (c ∷ []) ∷ []
add_first c (s ∷ rest) = (c ∷ s) ∷ rest

-- `split`
unfoldable pub split : ℕ → Text → List Text
split at [] = [] ∷ []
split at (c ∷ s) = let rest = split at s in if c == at then [] ∷ rest else add_first c rest

-- `split_once('=')`
unfoldable pub split_once : ℕ → Text → Option (Text × Text)
split_once at [] = none
split_once at (c ∷ s) =
    let rest = split_once at s in
    if c == at then some ([], s) else elim rest [ none ↦ none | some (a, b) ↦ some (c ∷ a, b) ]

unfoldable pub urldecode : Text → Text
unfolding decoded_bytes from_utf8_lossy
urldecode input = from_utf8_lossy (decoded_bytes input)

abbrev value_for : Text → Option (Text × Text) → Option Text → Option Text
value_for name none rest = rest
value_for name (some (key, value)) rest =
    if text_eq (urldecode key) name then some (urldecode value) else rest

-- `find_map`
unfoldable pub first_value : Text → List Text → Option Text
unfolding urldecode split_once text_eq
first_value name [] = none
first_value name (pair ∷ pairs) = value_for name (split_once b'=' pair) (first_value name pairs)

unfoldable pub form_field : Text → Text → Option Text
unfolding first_value split is_utf8
form_field body name = if is_utf8 body then first_value name (split b'&' body) else none

unfoldable pub request_carries_csrf_cookie : Request → Bool
unfolding split trim_start starts_with
request_carries_csrf_cookie r =
    any (λ raw. any (λ pair. starts_with (codes "lied_csrf=") (trim_start pair)) (split b';' raw))
      r.cookies

-- `as_deref() == Some(expected)`
abbrev pub is_token : Option Text → Text → Bool
is_token none expected = false
is_token (some given) expected = text_eq given expected

abbrev pub field_of : Option Text → Text → Option Text
field_of none name = none
field_of (some body) name = form_field body name

abbrev pub run_if : Bool → Outcome
run_if ok = if ok then runs none else csrf_rejection

-- A request that changes state, with the token of the session.
unfoldable pub checked : Request → Text → Outcome
unfolding text_eq is_form_urlencoded is_multipart form_field
checked r expected =
    if is_token r.csrf_header expected
    then runs none
    else if is_form_urlencoded r
    then run_if (is_token (field_of r.body (codes "csrf_token")) expected)
    else run_if (is_multipart r && is_token (field_of r.query (codes "csrf")) expected)

abbrev pub checked_with : Request → Option Text → Outcome
checked_with r none = csrf_rejection
checked_with r (some expected) = checked r expected

-- `fresh` is the token that `generate_token` makes.
unfoldable pub ensure_token : Text → Session → Option Text × Session
ensure_token fresh session = elim session.is_readable [
  | false ↦ (none, session)
  | true ↦ elim session.token [
    | some existing ↦ (some existing, session)
    | none ↦
        if session.is_writable
        then (some fresh, record session { token = some fresh })
        else (none, session)
  ]
]

abbrev or_empty : Option Text → Text
or_empty none = []
or_empty (some value) = value

unfoldable pub csrf_cookie_header : Server → Text → Text
csrf_cookie_header srv token =
    let secure_attr = if srv.secure_cookies then codes "; Secure" else [] in
    or_empty (
      srv.header_value
        (codes "lied_csrf=" ++ token ++ codes "; Path=/; SameSite=Lax" ++ secure_attr))

abbrev pub handed_out : Server → Request → Option Text × Session → Outcome × Session
handed_out srv r (none, session) = (internal_error, session)
handed_out srv r (some token, session) =
    if request_carries_csrf_cookie r
    then (runs none, session)
    else (runs (some (csrf_cookie_header srv token)), session)

unfoldable pub csrf_middleware : Server → Text → Request → Session → Outcome × Session
unfolding is_state_changing checked ensure_token request_carries_csrf_cookie csrf_cookie_header
csrf_middleware srv fresh r session =
    if is_state_changing r
    then ((if session.is_readable then checked_with r session.token else internal_error), session)
    else handed_out srv r (ensure_token fresh session)
