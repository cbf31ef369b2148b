-- ===== src/Auth/Authz/Coverage.antt =====
-- The two checks of lied/src/auth/authz.rs that guard the programme of an organization.
use lied.Prelude.{ℕ, ◌≡◌, refl, inl, inr, Bool-cases, Option-cases, ◌↔◌, ok}
use lied.Domain.User.{User}
use lied.Domain.Membership.{Table, find_by_user_and_org}
use lied.Domain.Membership.Roles.{is_staff, can_build_collections}
use lied.Auth.Authz.{full_program, coverage_scope_for, require_collection_editor}

-- The whole programme is shown to exactly those who may edit it: `coverage_scope_for` answers
-- `FullProgram` if and only if `require_collection_editor_v1` lets the user through.
pub full_program_iff :
    (user : User) (o : ℕ) (rows : Table)
    → (coverage_scope_for user o rows ≡ ok full_program)
      ↔ (require_collection_editor user o rows ≡ ok tt)
unfolding coverage_scope_for require_collection_editor can_build_collections
full_program_iff user o rows = elim (Bool-cases user.is_system_admin) [
  | inl a ↦ (λ _. rw a refl, λ _. rw a refl)
  | inr a ↦ elim (Option-cases (find_by_user_and_org user.id o rows)) [
    | inl e ↦
        (λ h. let h' = rw (a, e) at h in absurd (cc), λ h. let h' = rw (a, e) at h in absurd (cc))
    | inr (m, e) ↦ elim (Bool-cases (is_staff m.role)) [
      | inl s ↦ (λ _. rw (a, e, s) refl, λ _. rw (a, e, s) refl)
      | inr s ↦ (
        λ h.
            let h' = rw (a, e, s) at h in
            elim (Bool-cases m.is_principal) [
              | inl p ↦ let h'' = rw p at h' in absurd (cc)
              | inr p ↦ let h'' = rw p at h' in absurd (cc)
            ],
        λ h. let h' = rw (a, e, s) at h in absurd (cc),
      )
    ]
  ]
]
