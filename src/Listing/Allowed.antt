-- ===== src/Listing/Allowed.antt =====
-- lied/src/listing.rs: a request only selects among the fragments and fields of an endpoint.
use lied.Prelude.{
  ◌≡◌, ◌≢◌, refl, sym, ◌∙◌, ap, Bool, true, false, Option, none, some, List, [], ◌∷◌, ◌++◌, inl,
  inr, Option-cases, Bool-cases, ◌⊎◌, ◌↔◌, ok, arith, all,
}
use mathlib.Core.List.{append-nil, append_assoc}
use lied.Prelude.Text.{Text, text_eq}
use lied.Listing.{
  SortDirection, Report, fragment_of, direction_of, field_and_direction, resolve_text, resolve_sort,
  is_allowed, unknown_filter, resolve_from, verdict, resolve_filters,
}

-- The fragment stands in the list.
abbrev pub IsListed : Text → List (Text × Text) → Type 0
IsListed fragment [] = ⊥
IsListed fragment ((name, f) ∷ allowlist) = (fragment ≡ f) ⊎ IsListed fragment allowlist

fragment_of-IsListed :
    (field : Text) (allowlist : List (Text × Text)) {fragment : Text}
    → fragment_of field allowlist ≡ some fragment
    → IsListed fragment allowlist
unfolding fragment_of
fragment_of-IsListed field [] e = absurd (cc)
fragment_of-IsListed field ((name, f) ∷ allowlist) e = elim (Bool-cases (text_eq name field)) [
  | inl k ↦ let e' = rw k at e in inl (cc)
  | inr k ↦ inr (fragment_of-IsListed field allowlist (rw k at e))
]

resolve_text-IsListed :
    (raw : Text) (allowlist : List (Text × Text)) {fragment : Text} {direction : SortDirection}
    → resolve_text raw allowlist ≡ ok (fragment, direction)
    → IsListed fragment allowlist
unfolding resolve_text
resolve_text-IsListed raw allowlist e =
    let field = (field_and_direction raw).0 in
    let dir = (field_and_direction raw).1 in
    elim (Option-cases (fragment_of field allowlist)) [
      | inl f ↦ let e' = rw (resolve_text, f) at e in absurd (cc)
      | inr (a, f) ↦ elim (Option-cases (direction_of dir)) [
        | inl d ↦ let e' = rw (resolve_text, f, d) at e in absurd (cc)
        | inr (b, d) ↦
            let e' = rw (resolve_text, f, d) at e in
            fragment_of-IsListed field allowlist (f ∙ ap some (cc))
      ]
    ]

-- No text of a request reaches the `ORDER BY`: whatever the parameter, when `resolve_sort` succeeds
-- the fragment is the default or one of the endpoint's list.
pub resolve_sort-IsListed :
    (raw : Option Text) (allowlist : List (Text × Text)) (default : Text × SortDirection)
    {fragment : Text} {direction : SortDirection}
    → resolve_sort raw allowlist default ≡ ok (fragment, direction)
    → (fragment ≡ default.0) ⊎ IsListed fragment allowlist
unfolding resolve_sort
resolve_sort-IsListed none allowlist default e = inl (cc)
resolve_sort-IsListed (some []) allowlist default e = inl (cc)
resolve_sort-IsListed (some (c ∷ raw)) allowlist default e =
    inr (resolve_text-IsListed (c ∷ raw) allowlist e)

abbrev pub are_allowed : List Text → List (Text × Text) → Bool
are_allowed allowlist = all (λ (pair : Text × Text). is_allowed allowlist pair.0)

resolve_from-allowed :
    (allowlist : List Text) (raw resolved : List (Text × Text)) (report : Report)
    → are_allowed allowlist raw ≡ true
    → resolve_from allowlist raw resolved report ≡ (resolved ++ raw, report)
unfolding resolve_from
resolve_from-allowed allowlist [] resolved report h = rw (append-nil resolved) refl
resolve_from-allowed allowlist ((field, value) ∷ raw) resolved report h =
    let here : is_allowed allowlist field ≡ true = ground arith in
    rw (resolve_from, here)
      (resolve_from-allowed allowlist raw (resolved ++ (field, value) ∷ []) report (ground arith)
        ∙ ap (λ r. (r, report)) (append_assoc resolved ((field, value) ∷ []) raw))

abbrev has_errors : Report → Bool
has_errors [] = false
has_errors (e ∷ report) = true

module _ (allowlist : List Text) where
  resolve_from-keeps_errors :
      (raw resolved : List (Text × Text)) (report : Report)
      → has_errors report ≡ true
      → has_errors (resolve_from allowlist raw resolved report).1 ≡ true
  unfolding resolve_from
  resolve_from-keeps_errors [] resolved report h = h
  resolve_from-keeps_errors ((field, value) ∷ raw) resolved [] h = absurd (cc)
  resolve_from-keeps_errors ((field, value) ∷ raw) resolved (e ∷ report) h =
      elim (Bool-cases (is_allowed allowlist field)) [
        | inl k ↦
            rw (resolve_from, k)
              (resolve_from-keeps_errors raw (resolved ++ (field, value) ∷ []) (e ∷ report) refl)
        | inr k ↦
            rw (resolve_from, k)
              (resolve_from-keeps_errors raw resolved
                (e ∷ (report ++ unknown_filter field allowlist ∷ [])) refl)
      ]

  has_errors-snoc : (report : Report) (e : Text × Text) → has_errors (report ++ e ∷ []) ≡ true
  has_errors-snoc [] e = refl
  has_errors-snoc (d ∷ report) e = refl

  resolve_from-refuses :
      (raw resolved : List (Text × Text)) (report : Report)
      → are_allowed allowlist raw ≡ false
      → has_errors (resolve_from allowlist raw resolved report).1 ≡ true
  unfolding resolve_from
  resolve_from-refuses [] resolved report h = absurd (cc)
  resolve_from-refuses ((field, value) ∷ raw) resolved report h =
      elim (Bool-cases (is_allowed allowlist field)) [
        | inl k ↦
            rw (resolve_from, k)
              (resolve_from-refuses raw (resolved ++ (field, value) ∷ []) report (ground arith))
        | inr k ↦
            rw (resolve_from, k)
              (resolve_from-keeps_errors raw resolved
                (report ++ unknown_filter field allowlist ∷ [])
                (has_errors-snoc report (unknown_filter field allowlist)))
      ]

verdict_refuses :
    (r : List (Text × Text) × Report) {resolved : List (Text × Text)}
    → has_errors r.1 ≡ true
    → verdict r ≢ ok resolved
verdict_refuses (resolved, []) h e = cc
verdict_refuses (resolved, d ∷ report) h e = cc

-- `resolve_filters` succeeds exactly when each of the fields is in the endpoint's list, and then
-- it returns the given pairs, in the order in which the map is walked.
pub resolve_filters_iff :
    (raw : List (Text × Text)) (allowlist : List Text) (resolved : List (Text × Text))
    → (resolve_filters raw allowlist ≡ ok resolved)
      ↔ ((resolved ≡ raw) × (are_allowed allowlist raw ≡ true))
unfolding resolve_filters
resolve_filters_iff raw allowlist resolved = elim (Bool-cases (are_allowed allowlist raw)) [
  | inl k ↦
      let all_of = resolve_from-allowed allowlist raw [] [] k in
      (λ e. let e' = rw all_of at e in (cc, k), λ (same, _). rw all_of (ap ok (sym same)))
  | inr k ↦
      let refused = resolve_from-refuses allowlist raw [] [] k in
      (
        λ e. absurd (verdict_refuses (resolve_from allowlist raw [] []) refused e),
        λ (_, full). absurd (cc),
      )
]
