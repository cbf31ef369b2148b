-- ===== src/Domain/AuditLog.antt =====
-- lied/src/domain/audit_log.rs: what is written to the log. A JSON object is the list of its fields.
pub mod Redaction
mod Examples
use lied.Prelude.{ℕ, Bool, true, false, List, [], ◌∷◌, ◌++◌, Option, any, if◌then◌else◌}
use lied.Prelude.Int.{ℤ}
use lied.Prelude.Text.{Text, codes, text_eq}

-- `serde_json::Value`; of the numbers, the integers.
mutual
  pub data Value : Type 0 where
    null : Value
    bool : Bool → Value
    number : ℤ → Value
    string : Text → Value
    array : Items → Value
    object : Fields → Value

  pub data Items : Type 0 where
    empty_array : Items
    item : Value → Items → Items

  pub data Fields : Type 0 where
    empty_object : Fields
    field : Text → Value → Fields → Fields

abbrev pub redacted_keys : List Text
redacted_keys =
    codes "password_hash"
    ∷ codes "passwordHash"
    ∷ codes "hash"
    ∷ codes "token"
    ∷ codes "plaintext"
    ∷ codes "signing_key"
    ∷ codes "signingKey"
    ∷ codes "client_secret"
    ∷ codes "clientSecret"
    ∷ []

unfoldable pub is_redacted : Text → Bool
is_redacted key = any (text_eq key) redacted_keys

abbrev pub sentinel : Value
sentinel = string (codes "[redacted]")

unfoldable mutual
  pub redact : Value → Value
  redact (object fields) = object (redact_fields fields)
  redact (array items) = array (redact_items items)
  redact null = null
  redact (bool b) = bool b
  redact (number n) = number n
  redact (string s) = string s

  pub redact_items : Items → Items
  redact_items empty_array = empty_array
  redact_items (item v items) = item (redact v) (redact_items items)

  pub redact_fields : Fields → Fields
  redact_fields empty_object = empty_object
  redact_fields (field key v fields) =
      let rest = redact_fields fields in
      let shown = redact v in field key (if is_redacted key then sentinel else shown) rest

pub record AuditContext : Type 0 where
  pub actor_user_id : Option ℕ
  pub org_id : Option ℕ
  pub request_id : Option ℕ

pub record Row : Type 0 where
  pub id : ℕ
  pub context : AuditContext
  pub action : Text
  pub target_kind : Text
  pub target_id : Option ℕ
  pub payload : Value

-- A row that cannot be written is left out, and the caller goes on: `accepts` is the database's
-- answer.
unfoldable pub audit :
    (Row → Bool) → ℕ → AuditContext → Text → Text → Option ℕ → Value → List Row → List Row
unfolding redact
audit accepts id context action target_kind target_id payload rows =
    let row : Row = record {
      id = id;
      context = context;
      action = action;
      target_kind = target_kind;
      target_id = target_id;
      payload = redact payload;
    } in
    if accepts row then rows ++ row ∷ [] else rows
