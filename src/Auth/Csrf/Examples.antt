-- ===== src/Auth/Csrf/Examples.antt =====
-- Tests of lied/src/auth/csrf.rs on a form of the console.
use lied.Prelude.{◌≡◌, ◌↔◌, refl, arith, true, none, some, [], ◌∷◌, ◌++◌}
use lied.Prelude.Text.{Text, codes, text_eq}
use lied.Prelude.Utf8.{is_utf8, follow, from_utf8_lossy, lossy}
use lied.Listing.{decoded_bytes, hex_byte}
use lied.Auth.Csrf.{
  Request, Session, Server, runs, csrf_rejection, is_state_changing, is_form_urlencoded,
  is_multipart, starts_with, trim_start, split, split_once, urldecode, first_value, form_field,
  request_carries_csrf_cookie, checked, ensure_token, csrf_cookie_header, csrf_middleware,
}
use lied.Auth.Csrf.Cookies.{name_of, value_of}
use lied.Auth.Csrf.Checked.{IsConfirmed, csrf_middleware_iff, csrf_middleware-handed_out}

abbrev srv : Server
srv = record { secure_cookies = true; header_value = λ value. some value }

abbrev page : Request
page = record {
  method = codes "GET";
  path = codes "/admin";
  query = none;
  content_type = none;
  csrf_header = none;
  cookies = codes "theme=dark; lang=en" ∷ [];
  body = some [];
}

abbrev form : Request
form = record page {
  method = codes "POST";
  content_type = some (codes " application/x-www-form-urlencoded");
  body = some (codes "name=A%26B&csrf_token=t%2Fk");
}

abbrev session : Session
session = record { token = some (codes "t/k"); is_readable = true; is_writable = true }

decoded :
    (form_field (codes "name=A%26B&csrf_token=t%2Fk") (codes "csrf_token") ≡ some (codes "t/k"))
    × (urldecode (codes "a+b%zz%C3") ≡ codes "a b%zz" ++ 0xEF ∷ 0xBF ∷ 0xBD ∷ [])
unfolding form_field first_value split split_once urldecode decoded_bytes hex_byte from_utf8_lossy
    lossy is_utf8 follow text_eq
decoded = (refl, refl)

abbrev other_session : Session
other_session = record session { token = some (codes "u") }

confirmed :
    (csrf_middleware srv [] form session ≡ (runs none, session))
    × (csrf_middleware srv [] form other_session ≡ (csrf_rejection, other_session))
    × (csrf_middleware srv []
          (record form { path = codes "/login" })
          (record session { token = none })
        ≡ (
          runs (some (codes "lied_csrf=; Path=/; SameSite=Lax; Secure")),
          record session { token = some [] },
        ))
unfolding csrf_middleware is_state_changing checked ensure_token form_field first_value split
    split_once urldecode decoded_bytes hex_byte from_utf8_lossy lossy is_utf8 follow
    is_form_urlencoded is_multipart starts_with trim_start request_carries_csrf_cookie
    csrf_cookie_header text_eq
confirmed = (refl, refl, refl)

-- A cookie of another session is kept, though it has another token.
stale :
    csrf_middleware srv [] (record page { cookies = codes "lied_csrf=old" ∷ [] }) session
    ≡ (runs none, session)
unfolding csrf_middleware is_state_changing ensure_token request_carries_csrf_cookie split
    starts_with trim_start text_eq
stale = refl

form_changes : is_state_changing form ≡ true
unfolding is_state_changing text_eq
form_changes = refl

abbrev fresh_session : Session
fresh_session = record session { token = none }

csrf_middleware_iff_example :
    ((csrf_middleware srv [] form session).0 ≡ runs none) ↔ IsConfirmed form session
csrf_middleware_iff_example = csrf_middleware_iff srv [] form session form_changes

csrf_middleware-handed_out_example :
    (cookie : Text) × (kept : Session) × (csrf_middleware srv (codes "f") page fresh_session
      ≡ (runs (some cookie), kept))
    × (name_of cookie ≡ codes "lied_csrf")
    × (kept.token ≡ some (value_of cookie))
    × (csrf_middleware srv (codes "g") (record form { csrf_header = some (value_of cookie) }) kept
        ≡ (runs none, kept))
unfolding is_state_changing request_carries_csrf_cookie split trim_start starts_with text_eq
csrf_middleware-handed_out_example =
    csrf_middleware-handed_out srv (codes "f") (codes "g") page form fresh_session (λ s _. refl)
      (ground arith) (λ t e. absurd (cc)) refl refl refl refl refl
