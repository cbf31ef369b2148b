-- ===== src/Auth/Csrf/Cookies.antt =====
-- `csrf_cookie_header` of lied/src/auth/csrf.rs: what a client reads of the cookie.
use lied.Prelude.{
  ℕ, ◌≡◌, refl, ◌∙◌, ap, Bool, true, false, ◌&&◌, ◌||◌, some, [], ◌∷◌, ◌++◌, All, All-append,
  All-imp, inl, inr, Bool-cases, ◌==◌, leb, arith, if◌then◌else◌,
}
use mathlib.Core.List.{append_assoc}
use lied.Prelude.Text.{Text, codes}
use lied.Auth.Csrf.{Server, csrf_cookie_header}

-- What a client reads of a cookie: the name before the first `=`, and the value from there to the
-- first `;`.
unfoldable pub up_to : ℕ → Text → Text
up_to at [] = []
up_to at (c ∷ s) = let rest = up_to at s in if c == at then [] else c ∷ rest

unfoldable pub behind : ℕ → Text → Text
behind at [] = []
behind at (c ∷ s) = let rest = behind at s in if c == at then s else rest

abbrev pub name_of : Text → Text
name_of = up_to b'='

abbrev pub value_of : Text → Text
value_of cookie = up_to b';' (behind b'=' cookie)

-- The characters of a token, which is base64url.
abbrev pub is_base64url : ℕ → Bool
is_base64url c =
    (leb b'A' c && leb c b'Z')
    || (leb b'a' c && leb c b'z')
    || (leb b'0' c && leb c b'9')
    || c == b'-'
    || c == b'_'

abbrev pub IsToken : Text → Type 0
IsToken = All (λ c. is_base64url c ≡ true)

abbrev pub is_printable : ℕ → Bool
is_printable c = leb b' ' c && leb c b'~'

-- `HeaderValue::from_str` takes printable ASCII as it is.
abbrev pub AcceptsAscii : Server → Type 0
AcceptsAscii srv = (s : Text) → All (λ c. is_printable c ≡ true) s → srv.header_value s ≡ some s

up_to-append : (t s : Text) → IsToken t → up_to b';' (t ++ b';' ∷ s) ≡ t
unfolding up_to
up_to-append [] s _ = refl
up_to-append (c ∷ t) s (h, hs) =
    let other : (c == b';') ≡ false = ground arith in rw (other, up_to-append t s hs) refl

-- The cookie and what a client reads of it.
pub csrf_cookie_header_lem :
    (srv : Server) (t : Text)
    → AcceptsAscii srv
    → IsToken t
    → (name_of (csrf_cookie_header srv t) ≡ codes "lied_csrf")
      × (value_of (csrf_cookie_header srv t) ≡ t)
unfolding csrf_cookie_header up_to behind
csrf_cookie_header_lem srv t accepts h = elim (Bool-cases srv.secure_cookies) [
  | inl e ↦
      let taken =
        accepts (shape (codes "; Secure")) (printable (codes "; Secure") (ground arith)) in
      rw (csrf_cookie_header, e, taken) (refl, read (codes "; Secure"))
  | inr e ↦
      let taken = accepts (shape []) (printable [] tt) in
      rw (csrf_cookie_header, e, taken) (refl, read [])
]
  where
    shape : Text → Text
    shape secure_attr = codes "lied_csrf=" ++ t ++ codes "; Path=/; SameSite=Lax" ++ secure_attr

    printable :
        (secure_attr : Text)
        → All (λ c. is_printable c ≡ true) secure_attr
        → All (λ c. is_printable c ≡ true) (shape secure_attr)
    printable secure_attr last =
        All-append _ (codes "lied_csrf=" ++ t ++ codes "; Path=/; SameSite=Lax") secure_attr
          (All-append _ (codes "lied_csrf=" ++ t) (codes "; Path=/; SameSite=Lax")
            (All-append _ (codes "lied_csrf=") t (ground arith)
              (All-imp _ _ (λ c b. ground arith) t h))
            (ground arith))
          last

    read : (secure_attr : Text) → value_of (shape secure_attr) ≡ t
    read secure_attr =
        ap (up_to b';') (append_assoc t (codes "; Path=/; SameSite=Lax") secure_attr)
        ∙ up_to-append t (codes " Path=/; SameSite=Lax" ++ secure_attr) h
