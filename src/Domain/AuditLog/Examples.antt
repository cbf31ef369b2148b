-- ===== src/Domain/AuditLog/Examples.antt =====
-- Tests of lied/src/domain/audit_log.rs, those of the source among them.
use lied.Prelude.{◌≡◌, refl, false, none, [], ◌∷◌}
use lied.Prelude.Text.{codes, text_eq}
use lied.Domain.AuditLog.{
  Value, string, array, object, item, empty_array, field, empty_object, sentinel, redact,
  is_redacted, audit,
}
use lied.Domain.AuditLog.Redaction.{at_key, at_index, reach, shown, behind_key, reach-redact}

abbrev old_hash : Value
old_hash = object (field (codes "hash") (string (codes "old-hash")) empty_object)

abbrev payload : Value
payload = object (
    field (codes "username") (string (codes "alice")) (
      field (codes "diff")
        (object (field (codes "before") (array (item old_hash empty_array)) empty_object))
        empty_object))

written :
    redact payload
    ≡ object (
        field (codes "username") (string (codes "alice")) (
          field
            (codes "diff")
            (object (
              field
                (codes "before")
                (array (item (object (field (codes "hash") sentinel empty_object)) empty_array))
                empty_object))
            empty_object))
unfolding redact is_redacted text_eq
written = refl

left_out :
    audit
      (λ row. false)
      1
      (record { actor_user_id = none; org_id = none; request_id = none })
      (codes "file.create")
      (codes "file")
      none
      payload
      []
    ≡ []
unfolding audit
left_out = refl

reach-redact_example :
    (reach (at_key (codes "diff") ∷ at_key (codes "before") ∷ at_index 0 ∷ []) (redact payload)
      ≡ shown (reach (at_key (codes "diff") ∷ at_key (codes "before") ∷ at_index 0 ∷ []) payload))
    × (reach
          (at_key (codes "diff")
            ∷ at_key (codes "before")
            ∷ at_index 0
            ∷ at_key (codes "hash")
            ∷ [])
          (redact payload)
        ≡ behind_key [] (
            reach
              (at_key (codes "diff")
                ∷ at_key (codes "before")
                ∷ at_index 0
                ∷ at_key (codes "hash")
                ∷ [])
              payload))
unfolding is_redacted text_eq
reach-redact_example =
    reach-redact (at_key (codes "diff") ∷ at_key (codes "before") ∷ at_index 0 ∷ []) (codes "hash")
      [] payload refl refl
