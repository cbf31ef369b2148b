-- ===== src/Domain/AuditLog/Redaction.antt =====
-- lied/src/domain/audit_log.rs: what can be read in a value that was redacted.
use lied.Prelude.{
  ℕ, zero, suc, ◌≡◌, refl, ◌∙◌, ap, Bool, true, false, Option, none, some, List, [], ◌∷◌, ◌++◌, all,
  not, Bool-cases, Option-cases, inl, inr, if◌then◌else◌, arith,
}
use lied.Prelude.Text.{Text, text_eq, text_eq→eq}
use lied.Domain.AuditLog.{
  Value, null, bool, number, string, array, object, Items, empty_array, item, Fields, empty_object,
  field, is_redacted, sentinel, redact, redact_items, redact_fields,
}

-- A step into a value.
pub data Step : Type 0 where
  at_key : Text → Step
  at_index : ℕ → Step

unfoldable pub get_item : ℕ → Items → Option Value
get_item n empty_array = none
get_item zero (item v items) = some v
get_item (suc n) (item v items) = get_item n items

unfoldable pub get_field : Text → Fields → Option Value
get_field k empty_object = none
get_field k (field key v fields) = if text_eq key k then some v else get_field k fields

unfoldable pub step : Step → Value → Option Value
step (at_key k) (object fields) = get_field k fields
step (at_index n) (array items) = get_item n items
step _ _ = none

-- The value at the end of a path of steps.
unfoldable pub reach : List Step → Value → Option Value
reach [] v = some v
reach (s ∷ path) v = elim (step s v) [ none ↦ none | some w ↦ reach path w ]

-- The value of a key that is redacted, if there is one.
abbrev pub hidden : Option Value → Option Value
hidden none = none
hidden (some v) = some sentinel

abbrev pub shown : Option Value → Option Value
shown none = none
shown (some v) = some (redact v)

-- Whether a step goes to a key that may be read.
abbrev pub is_open : Step → Bool
is_open (at_key k) = not (is_redacted k)
is_open (at_index n) = true

get_item-redact_items :
    (n : ℕ) (items : Items) → get_item n (redact_items items) ≡ shown (get_item n items)
unfolding redact_items get_item
get_item-redact_items n empty_array = refl
get_item-redact_items zero (item v items) = refl
get_item-redact_items (suc n) (item v items) = get_item-redact_items n items

get_field-open :
    (k : Text) (fields : Fields)
    → is_redacted k ≡ false
    → get_field k (redact_fields fields) ≡ shown (get_field k fields)
unfolding redact_fields get_field
get_field-open k empty_object h = refl
get_field-open k (field key v fields) h = elim (Bool-cases (text_eq key k)) [
  | inl e ↦
      let readable : is_redacted key ≡ false = ap is_redacted (text_eq→eq key k e) ∙ h in
      rw (e, readable) refl
  | inr e ↦ rw e (get_field-open k fields h)
]

get_field-hidden :
    (k : Text) (fields : Fields)
    → is_redacted k ≡ true
    → get_field k (redact_fields fields) ≡ hidden (get_field k fields)
unfolding redact_fields get_field
get_field-hidden k empty_object h = refl
get_field-hidden k (field key v fields) h = elim (Bool-cases (text_eq key k)) [
  | inl e ↦
      let secret : is_redacted key ≡ true = ap is_redacted (text_eq→eq key k e) ∙ h in
      rw (e, secret) refl
  | inr e ↦ rw e (get_field-hidden k fields h)
]

step-redact : (s : Step) (v : Value) → is_open s ≡ true → step s (redact v) ≡ shown (step s v)
unfolding step redact
step-redact (at_key k) (object fields) h = get_field-open k fields (ground arith)
step-redact (at_index n) (array items) h = get_item-redact_items n items
step-redact (at_key k) (array items) h = refl
step-redact (at_key k) null h = refl
step-redact (at_key k) (bool b) h = refl
step-redact (at_key k) (number n) h = refl
step-redact (at_key k) (string s) h = refl
step-redact (at_index n) (object fields) h = refl
step-redact (at_index n) null h = refl
step-redact (at_index n) (bool b) h = refl
step-redact (at_index n) (number m) h = refl
step-redact (at_index n) (string s) h = refl

step-hidden :
    (k : Text) (v : Value)
    → is_redacted k ≡ true
    → step (at_key k) (redact v) ≡ hidden (step (at_key k) v)
unfolding step redact
step-hidden k (object fields) h = get_field-hidden k fields h
step-hidden k (array items) h = refl
step-hidden k null h = refl
step-hidden k (bool b) h = refl
step-hidden k (number n) h = refl
step-hidden k (string s) h = refl

-- What is read behind a redacted key: the text of the sentinel has no parts.
abbrev pub behind_key : List Step → Option Value → Option Value
behind_key [] o = hidden o
behind_key (s ∷ rest) o = none

reach-key :
    (k : Text) (rest : List Step) (v : Value)
    → is_redacted k ≡ true
    → reach (at_key k ∷ rest) (redact v) ≡ behind_key rest (reach (at_key k ∷ []) v)
unfolding reach step
reach-key k [] v secret = elim (Option-cases (step (at_key k) v)) [
  | inl e ↦ rw (reach, step-hidden k v secret, e) refl
  | inr (w, e) ↦ rw (reach, step-hidden k v secret, e) refl
]
reach-key k (at_key l ∷ rest) v secret = elim (Option-cases (step (at_key k) v)) [
  | inl e ↦ rw (reach, step-hidden k v secret, e) refl
  | inr (w, e) ↦ rw (reach, step-hidden k v secret, e) refl
]
reach-key k (at_index n ∷ rest) v secret = elim (Option-cases (step (at_key k) v)) [
  | inl e ↦ rw (reach, step-hidden k v secret, e) refl
  | inr (w, e) ↦ rw (reach, step-hidden k v secret, e) refl
]

-- Along a path of keys that may be read, the redacted value has at each place what the redaction
-- makes of the value that was there, and nothing where nothing was. At a redacted key behind such a
-- path it has the sentinel exactly where there was a value, and nothing below it.
pub reach-redact :
    (path : List Step) (k : Text) (rest : List Step) (v : Value)
    → all is_open path ≡ true
    → is_redacted k ≡ true
    → (reach path (redact v) ≡ shown (reach path v))
      × (reach (path ++ at_key k ∷ rest) (redact v)
          ≡ behind_key rest (reach (path ++ at_key k ∷ []) v))
unfolding reach
reach-redact [] k rest v h secret = (refl, reach-key k rest v secret)
reach-redact (s ∷ path) k rest v h secret =
    let same = step-redact s v (ground arith) in
    elim (Option-cases (step s v)) [
      | inl e ↦ (rw (reach, same, e) refl, rw (reach, same, e) (nothing rest))
      | inr (w, e) ↦
          let (readable, secret_here) = reach-redact path k rest w (ground arith) secret in
          (rw (reach, same, e) readable, rw (reach, same, e) secret_here)
    ]
  where
    nothing : (rest : List Step) → none ≡ behind_key rest none
    nothing [] = refl
    nothing (s ∷ rest) = refl
