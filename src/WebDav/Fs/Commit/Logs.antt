-- ===== src/WebDav/Fs/Commit/Logs.antt =====
-- lied/src/webdav/fs.rs: what a write leaves in the audit log.
use lied.Prelude.{
  ℕ, ◌≡◌, refl, true, false, Option, some, List, [], ◌∷◌, ◌++◌, inl, inr, Bool-cases,
}
use lied.Prelude.Text.{Text, text_eq}
use lied.Domain.AuditLog
use lied.Domain.AuditLog.{Row, Fields, object, string, field, empty_object, redact, is_redacted}
use lied.Domain.File.{Slot}
use lied.WebDav.Fs.{LiedFs}
use lied.WebDav.Fs.Objects.{Server}
use lied.WebDav.Fs.Write.{Backend, Disk, audited, file_payload, annotation_payload}

-- The row of the log for a write of this user.
abbrev pub entry_of : LiedFs → Backend → ℕ → Text → Text → Option ℕ → Fields → Row
entry_of fs be org_id action target_kind target_id payload = record {
  id = be.log_id;
  context = record {
    actor_user_id = some fs.user_id;
    org_id = some org_id;
    request_id = fs.request_id;
  };
  action = action;
  target_kind = target_kind;
  target_id = target_id;
  payload = object payload;
}

-- The row stands at the end of the log, or the database refused it and the log is as before.
pub data IsLogged (be : Backend) (row : Row) (before : List Row) : List Row → Type 0 where
  logged : be.accepts row ≡ true → IsLogged be row before (before ++ row ∷ [])
  lost : be.accepts row ≡ false → IsLogged be row before before

abbrev pub strings : List (Text × Text) → Fields
strings [] = empty_object
strings ((key, value) ∷ rest) = field key (string value) (strings rest)

module _ (srv : Server) (fs : LiedFs) (be : Backend) where
  -- The names in these payloads are none of those that are redacted.
  pub redact-file_payload :
      (slot : Slot)
      → redact (object (file_payload srv fs be slot)) ≡ object (file_payload srv fs be slot)
  unfolding redact is_redacted text_eq
  redact-file_payload slot = refl

  pub redact-annotation_payload :
      (voice_id : ℕ) (user name : Text)
      → redact (object (annotation_payload srv fs be voice_id user name))
        ≡ object (annotation_payload srv fs be voice_id user name)
  unfolding redact is_redacted text_eq
  redact-annotation_payload voice_id user name = refl

  pub audited_lem :
      (org_id : ℕ) (action target_kind : Text) (target_id : Option ℕ) (payload : Fields)
      (disk : Disk)
      → redact (object payload) ≡ object payload
      → IsLogged be
          (entry_of fs be org_id action target_kind target_id payload)
          disk.audit
          (audited srv fs be org_id action target_kind target_id payload disk).audit
  unfolding AuditLog.audit
  audited_lem org_id action target_kind target_id payload disk same =
      let row = entry_of fs be org_id action target_kind target_id payload in
      elim (Bool-cases (be.accepts row)) [
        | inl e ↦ rw (AuditLog.audit, same, e) (logged e)
        | inr e ↦ rw (AuditLog.audit, same, e) (lost e)
      ]
