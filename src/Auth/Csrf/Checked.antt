-- ===== src/Auth/Csrf/Checked.antt =====
-- lied/src/auth/csrf.rs: which requests run their handler.
use lied.Prelude.{
  ◌≡◌, ◌↔◌, refl, sym, ◌∙◌, ap, subst, Bool, true, false, Option, none, some, [], ◌∷◌, inl, inr,
  Bool-cases, Option-cases, ◌==◌, arith,
}
use lied.Prelude.Text.{Text, codes, text_eq, text_eq→eq, text_eq_refl}
use lied.Auth.Csrf.Cookies.{name_of, value_of, IsToken, AcceptsAscii, csrf_cookie_header_lem}
use lied.Auth.Csrf.Fields.{HasField, form_field_iff}
use lied.Auth.Csrf.{
  Request, Session, Server, runs, is_state_changing, is_multipart, is_form_urlencoded, starts_with,
  trim_start, request_carries_csrf_cookie, is_token, field_of, form_field, run_if, checked,
  ensure_token, csrf_cookie_header, handed_out, csrf_middleware,
}

-- The three ways to carry the token, of which the first is open to every request.
pub data Carries (r : Request) (token : Text) : Type 0 where
  in_header : r.csrf_header ≡ some token → Carries r token
  in_form :
      (body : Text)
      → is_form_urlencoded r ≡ true
      → r.body ≡ some body
      → HasField body (codes "csrf_token") token
      → Carries r token
  in_query :
      (query : Text)
      → is_multipart r ≡ true
      → r.query ≡ some query
      → HasField query (codes "csrf") token
      → Carries r token

-- No media type is both.
multipart_no_form : (r : Request) → is_multipart r ≡ true → is_form_urlencoded r ≡ false
unfolding is_multipart is_form_urlencoded starts_with
multipart_no_form r m = elim (Option-cases r.content_type) [
  | inl n ↦ rw (is_form_urlencoded, n) refl
  | inr (t, e) ↦ rw (is_form_urlencoded, e) (other (trim_start t) (rw (is_multipart, e) at m))
]
  where
    other :
        (s : Text)
        → starts_with (codes "multipart/") s ≡ true
        → starts_with (codes "application/x-www-form-urlencoded") s ≡ false
    other [] h = refl
    other (c ∷ s) h =
        let m : (b'm' == c) ≡ true = ground arith in
        let n : (b'a' == c) ≡ false = ground arith in rw n refl

is_token_iff : (o : Option Text) (t : Text) → (is_token o t ≡ true) ↔ (o ≡ some t)
is_token_iff none t = (λ h. absurd (cc), λ h. absurd (cc))
is_token_iff (some s) t = (
  λ h. ap some (text_eq→eq s t h),
  λ h. let e : s ≡ t = cc in subst (λ x. text_eq s x ≡ true) e (text_eq_refl s),
)

field_of_iff :
    (o : Option Text) (name t : Text)
    → (is_token (field_of o name) t ≡ true)
      ↔ ((body : Text) × (o ≡ some body) × HasField body name t)
field_of_iff none name t = (λ h. absurd (cc), λ (body, e, f). absurd (cc))
field_of_iff (some b) name t = (
  λ h. (b, refl, (form_field_iff name t b).0 ((is_token_iff (form_field b name) t).0 h)),
  λ (body, e, f).
      let same : body ≡ b = cc in
      (is_token_iff (form_field b name) t).1
        ((form_field_iff name t b).1 (subst (λ b. HasField b name t) same f)),
)

run_if_iff : (b : Bool) → (run_if b ≡ runs none) ↔ (b ≡ true)
run_if_iff true = (λ _. refl, λ _. refl)
run_if_iff false = (λ h. absurd (cc), λ h. absurd (cc))

Carries-of_checked : (r : Request) (t : Text) → checked r t ≡ runs none → Carries r t
unfolding checked
Carries-of_checked r t h = elim (Bool-cases (is_token r.csrf_header t)) [
  | inl e ↦ in_header ((is_token_iff r.csrf_header t).0 e)
  | inr e ↦ elim (Bool-cases (is_form_urlencoded r)) [
    | inl f ↦
        let given = (run_if_iff _).0 (rw (checked, e, f) at h) in
        let (body, e', field) = (field_of_iff r.body (codes "csrf_token") t).0 given in
        in_form body f e' field
    | inr f ↦ elim (Bool-cases (is_multipart r)) [
      | inl m ↦
          let given = (run_if_iff _).0 (rw (checked, e, f, m) at h) in
          let (query, e', field) = (field_of_iff r.query (codes "csrf") t).0 given in
          in_query query m e' field
      | inr m ↦ let h' = rw (checked, e, f, m) at h in absurd (cc)
    ]
  ]
]

checked-of_Carries : (r : Request) (t : Text) → Carries r t → checked r t ≡ runs none
unfolding checked
checked-of_Carries r t (in_header p) = rw (checked, (is_token_iff r.csrf_header t).1 p) refl
checked-of_Carries r t (in_form body f e' field) = elim (Bool-cases (is_token r.csrf_header t)) [
  | inl e ↦ rw (checked, e) refl
  | inr e ↦
      rw (checked, e, f, (field_of_iff r.body (codes "csrf_token") t).1 (body, e', field)) refl
]
checked-of_Carries r t (in_query query m e' field) = elim (Bool-cases (is_token r.csrf_header t)) [
  | inl e ↦ rw (checked, e) refl
  | inr e ↦
      let given = (field_of_iff r.query (codes "csrf") t).1 (query, e', field) in
      rw (checked, e, multipart_no_form r m, m, given) refl
]

-- A request that changes state carries the token of a session that can be read.
pub record IsConfirmed (r : Request) (session : Session) : Type 0 where
  pub is_readable : session.is_readable ≡ true
  pub token : Text
  pub stored : session.token ≡ some token
  pub carried : Carries r token

-- The handler of a request that changes state, and is no login and no logout, is run exactly when
-- the session can be read and has a token and the request carries it: in the header, or as the
-- first field csrf_token of a urlencoded form, or as the first field csrf of the query of a
-- multipart request.
pub csrf_middleware_iff :
    (srv : Server) (fresh : Text) (r : Request) (session : Session)
    → is_state_changing r ≡ true
    → ((csrf_middleware srv fresh r session).0 ≡ runs none) ↔ IsConfirmed r session
unfolding csrf_middleware
csrf_middleware_iff srv fresh r session change = (
  λ h. elim (Bool-cases session.is_readable) [
    | inr n ↦ let h' = rw (csrf_middleware, change, n) at h in absurd (cc)
    | inl y ↦ elim (Option-cases session.token) [
      | inl n ↦ let h' = rw (csrf_middleware, change, y, n) at h in absurd (cc)
      | inr (t, s) ↦
          let h' = rw (csrf_middleware, change, y, s) at h in
          record { is_readable = y; token = t; stored = s; carried = Carries-of_checked r t h' }
    ]
  ],
  λ c.
      rw (csrf_middleware, change, c.is_readable, c.stored)
        (checked-of_Carries r c.token c.carried),
)

-- What a session that works has after `ensure_token`.
record IsEnsured (answer : Option Text × Session) : Type 0 where
  token : Text
  given : answer.0 ≡ some token
  stored : answer.1.token ≡ some token
  is_readable : answer.1.is_readable ≡ true
  is_token : IsToken token

ensure_token-IsEnsured :
    (fresh : Text) (session : Session)
    → session.is_readable ≡ true
    → session.is_writable ≡ true
    → IsToken fresh
    → ((t : Text) → session.token ≡ some t → IsToken t)
    → IsEnsured (ensure_token fresh session)
unfolding ensure_token
ensure_token-IsEnsured fresh session y w new old =
    subst (λ s. IsEnsured (ensure_token fresh s)) (sym works) (ensured session.token old)
  where
    works : session ≡ record { token = session.token; is_readable = true; is_writable = true }
    works =
        ap (λ b. record session { is_readable = b }) y
        ∙ ap (λ b. record { token = session.token; is_readable = true; is_writable = b }) w

    ensured :
        (o : Option Text)
        → ((t : Text) → o ≡ some t → IsToken t)
        → IsEnsured
            (ensure_token fresh (record { token = o; is_readable = true; is_writable = true }))
    ensured (some t) old = record {
      token = t;
      given = refl;
      stored = refl;
      is_readable = refl;
      is_token = old t refl;
    }
    ensured none old = record {
      token = fresh;
      given = refl;
      stored = refl;
      is_readable = refl;
      is_token = new;
    }

-- A client that has no cookie is handed the token by any request that changes nothing, when the
-- session store works, tokens are base64url and `HeaderValue` takes printable ASCII: the response
-- has a cookie lied_csrf whose value is the token that the session then has, and every request
-- that changes state and has this value in its header is run.
pub csrf_middleware-handed_out :
    (srv : Server) (fresh later : Text) (r r' : Request) (session : Session)
    → AcceptsAscii srv
    → IsToken fresh
    → ((t : Text) → session.token ≡ some t → IsToken t)
    → is_state_changing r ≡ false
    → request_carries_csrf_cookie r ≡ false
    → session.is_readable ≡ true
    → session.is_writable ≡ true
    → is_state_changing r' ≡ true
    → (cookie : Text) × (kept : Session) × (csrf_middleware srv fresh r session
        ≡ (runs (some cookie), kept))
      × (name_of cookie ≡ codes "lied_csrf")
      × (kept.token ≡ some (value_of cookie))
      × (csrf_middleware srv later (record r' { csrf_header = some (value_of cookie) }) kept
          ≡ (runs none, kept))
unfolding csrf_middleware is_state_changing
csrf_middleware-handed_out srv fresh later r r' session accepts new old same bare y w change =
    let ensured = ensure_token-IsEnsured fresh session y w new old in
    let t = ensured.token in
    let kept = (ensure_token fresh session).1 in
    let cookie = csrf_cookie_header srv t in
    let (name, value) = csrf_cookie_header_lem srv t accepts ensured.is_token in
    let answer : ensure_token fresh session ≡ (some t, kept) = ap (λ o. (o, kept)) ensured.given in
    let back = record r' { csrf_header = some (value_of cookie) } in
    let carried = checked-of_Carries back t (in_header (ap some value)) in
    (
      cookie,
      kept,
      rw (csrf_middleware, same) (ap (handed_out srv r) answer ∙ rw bare refl),
      name,
      ensured.stored ∙ ap some (sym value),
      rw (csrf_middleware, change, ensured.is_readable, ensured.stored, carried) refl,
    )
