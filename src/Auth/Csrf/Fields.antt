-- ===== src/Auth/Csrf/Fields.antt =====
-- `form_field` of lied/src/auth/csrf.rs: the first field of a form that has a name.
use lied.Prelude.{
  ℕ, ◌≡◌, ◌≢◌, ◌↔◌, refl, sym, ◌∙◌, ap, subst, true, false, none, some, List, [], ◌∷◌, ◌++◌, All,
  inl, inr, Bool-cases, Option-cases, ◌==◌, arith,
}
use lied.Prelude.Text.{Text, text_eq, text_eq→eq, text_eq_refl}
use lied.Prelude.Utf8.{is_utf8}
use lied.Auth.Csrf.{add_first, split, split_once, urldecode, first_value, form_field}

abbrev pub Lacks : ℕ → Text → Type 0
Lacks at = All (λ c. (c == at) ≡ false)

unfoldable pub joined_by : ℕ → List Text → Text
joined_by at [] = []
joined_by at (s ∷ []) = s
joined_by at (s ∷ t ∷ rest) = s ++ at ∷ joined_by at (t ∷ rest)

-- Of the pairs with an `=`, the first whose decoded key is `name` has a value that decodes to
-- `value`.
pub data First (name value : Text) : List Text → Type 0 where
  here :
      (key raw : Text) (rest : List Text)
      → Lacks b'=' key
      → urldecode key ≡ name
      → urldecode raw ≡ value
      → First name value ((key ++ b'=' ∷ raw) ∷ rest)
  later :
      (pair : Text) (rest : List Text)
      → ((key raw : Text) → Lacks b'=' key → pair ≡ key ++ b'=' ∷ raw → urldecode key ≢ name)
      → First name value rest
      → First name value (pair ∷ rest)

-- The body is a row of pairs between `&`, of which the first with the name has the value.
pub record HasField (body name value : Text) : Type 0 where
  pub valid : is_utf8 body ≡ true
  pub pairs : List Text
  pub apart : All (Lacks b'&') pairs
  pub joined : joined_by b'&' pairs ≡ body
  pub first : First name value pairs

module _ (at : ℕ) where
  self : (at == at) ≡ true
  self = ground arith

  joined_by-add_first :
      (c : ℕ) (pairs : List Text) (s : Text)
      → joined_by at pairs ≡ s
      → joined_by at (add_first c pairs) ≡ c ∷ s
  unfolding joined_by
  joined_by-add_first c [] s e = ap (λ t. c ∷ t) e
  joined_by-add_first c (x ∷ []) s e = ap (λ t. c ∷ t) e
  joined_by-add_first c (x ∷ y ∷ rest) s e = ap (λ t. c ∷ t) e

  Lacks-add_first :
      (c : ℕ) (pairs : List Text)
      → (c == at) ≡ false
      → All (Lacks at) pairs
      → All (Lacks at) (add_first c pairs)
  Lacks-add_first c [] n _ = ((n, tt), tt)
  Lacks-add_first c (x ∷ rest) n (h, hs) = ((n, h), hs)

  split-joined :
      (s : Text)
      → (x : Text) × (rest : List Text) × (split at s ≡ x ∷ rest)
        × (joined_by at (x ∷ rest) ≡ s)
        × All (Lacks at) (x ∷ rest)
  unfolding split joined_by
  split-joined [] = ([], [], refl, refl, (tt, tt))
  split-joined (c ∷ s) =
      let (x, rest, e, j, l) = split-joined s in
      elim (Bool-cases (c == at)) [
        | inl k ↦
            let same : at ≡ c = ground arith in
            ([], x ∷ rest, rw (k, e) refl, rw j (ap (λ d. d ∷ s) same), (tt, l))
        | inr k ↦ (
          c ∷ x,
          rest,
          rw (k, e) refl,
          joined_by-add_first c (x ∷ rest) s j,
          Lacks-add_first c (x ∷ rest) k l,
        )
      ]

  split_alone : (x : Text) → Lacks at x → split at x ≡ x ∷ []
  unfolding split
  split_alone [] _ = refl
  split_alone (c ∷ x) (n, h) = rw (n, split_alone x h) refl

  split-append : (x s : Text) → Lacks at x → split at (x ++ at ∷ s) ≡ x ∷ split at s
  unfolding split
  split-append [] s _ = rw self refl
  split-append (c ∷ x) s (n, h) = rw (n, split-append x s h) refl

  split-joined_by :
      (x : Text) (rest : List Text)
      → All (Lacks at) (x ∷ rest)
      → split at (joined_by at (x ∷ rest)) ≡ x ∷ rest
  unfolding joined_by
  split-joined_by x [] (h, _) = split_alone x h
  split-joined_by x (y ∷ rest) (h, hs) =
      split-append x (joined_by at (y ∷ rest)) h ∙ ap (λ ps. x ∷ ps) (split-joined_by y rest hs)

  split_once-append : (a b : Text) → Lacks at a → split_once at (a ++ at ∷ b) ≡ some (a, b)
  unfolding split_once
  split_once-append [] b _ = rw self refl
  split_once-append (c ∷ a) b (n, h) = rw (n, split_once-append a b h) refl

  split_once-parts :
      (s : Text) {a b : Text} → split_once at s ≡ some (a, b) → Lacks at a × (s ≡ a ++ at ∷ b)
  unfolding split_once
  split_once-parts [] e = absurd (cc)
  split_once-parts (c ∷ s) {a} {b} e = elim (Bool-cases (c == at)) [
    | inl k ↦
        let e' = rw (split_once, k) at e in
        let same : c ≡ at = ground arith in
        let none_before : [] ≡ a = cc in
        let behind : s ≡ b = cc in
        subst (λ a. Lacks at a × (c ∷ s ≡ a ++ at ∷ b)) none_before (tt, rw (same, behind) refl)
    | inr k ↦ elim (Option-cases (split_once at s)) [
      | inl n ↦ let e' = rw (split_once, k, n) at e in absurd (cc)
      | inr ((a', b'), n) ↦
          let (l, shape) = split_once-parts s n in
          let e' = rw (split_once, k, n) at e in
          let before : c ∷ a' ≡ a = cc in
          let behind : b' ≡ b = cc in
          subst (λ a. Lacks at a × (c ∷ s ≡ a ++ at ∷ b)) before
            ((k, l), ap (λ t. c ∷ t) (shape ∙ ap (λ b. a' ++ at ∷ b) behind))
    ]
  ]

module _ (name value : Text) where
  First-of_first_value :
      (pairs : List Text) → first_value name pairs ≡ some value → First name value pairs
  unfolding first_value
  First-of_first_value [] e = absurd (cc)
  First-of_first_value (pair ∷ rest) e = elim (Option-cases (split_once b'=' pair)) [
    | inl n ↦
        later pair rest
          (λ key raw l shape _.
            let found = ap (split_once b'=') shape ∙ split_once-append b'=' key raw l in
            absurd (cc))
          (First-of_first_value rest (rw (first_value, n) at e))
    | inr ((key, raw), n) ↦
        let (l, shape) = split_once-parts b'=' pair n in
        elim (Bool-cases (text_eq (urldecode key) name)) [
          | inl k ↦
              let e' = rw (first_value, n, k) at e in
              subst (λ p. First name value (p ∷ rest)) (sym shape)
                (here key raw rest l (text_eq→eq (urldecode key) name k) cc)
          | inr k ↦
              later pair rest
                (λ key' raw' l' shape' same.
                  let found = ap (split_once b'=') shape' ∙ split_once-append b'=' key' raw' l' in
                  let key_is : key' ≡ key = cc in
                  let there : text_eq (urldecode key) name ≡ true =
                    rw (← key_is, same) (text_eq_refl name) in
                  absurd (cc))
                (First-of_first_value rest (rw (first_value, n, k) at e))
        ]
  ]

  first_value-of_First :
      (pairs : List Text) → First name value pairs → first_value name pairs ≡ some value
  unfolding first_value
  first_value-of_First _ (here key raw rest l k v) =
      rw (first_value, split_once-append b'=' key raw l, k, text_eq_refl name) (ap some v)
  first_value-of_First _ (later pair rest other first) =
      let behind = first_value-of_First rest first in
      elim (Option-cases (split_once b'=' pair)) [
        | inl n ↦ rw (first_value, n) behind
        | inr ((key, raw), n) ↦
            let (l, shape) = split_once-parts b'=' pair n in
            elim (Bool-cases (text_eq (urldecode key) name)) [
              | inl k ↦ absurd (other key raw l shape (text_eq→eq (urldecode key) name k))
              | inr k ↦ rw (first_value, n, k) behind
            ]
      ]

  pub form_field_iff :
      (body : Text) → (form_field body name ≡ some value) ↔ HasField body name value
  unfolding form_field first_value
  form_field_iff body = (
    λ e. elim (Bool-cases (is_utf8 body)) [
      | inr n ↦ let e' = rw (form_field, n) at e in absurd (cc)
      | inl y ↦
          let (x, rest, s, j, l) = split-joined b'&' body in
          record {
            valid = y;
            pairs = x ∷ rest;
            apart = l;
            joined = j;
            first = First-of_first_value (x ∷ rest) (rw (form_field, y, s) at e);
          }
    ],
    λ h. rw (form_field, h.valid) (found h.pairs h.apart h.joined h.first),
  )
    where
      found :
          (pairs : List Text)
          → All (Lacks b'&') pairs
          → joined_by b'&' pairs ≡ body
          → First name value pairs
          → first_value name (split b'&' body) ≡ some value
      found [] l j first = let h : none ≡ some value = first_value-of_First [] first in absurd (cc)
      found (x ∷ rest) l j first =
          ap (λ b. first_value name (split b'&' b)) (sym j)
          ∙ ap (first_value name) (split-joined_by b'&' x rest l)
          ∙ first_value-of_First (x ∷ rest) first
