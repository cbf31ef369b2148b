-- ===== src/WebDav/Access/Staff.antt =====
-- lied/src/webdav/access.rs and lied/src/auth/authz.rs: who has the wide view.
use lied.Prelude.{
  ℕ, ◌≡◌, refl, sym, ◌∙◌, true, false, ◌&&◌, some, [], ◌∷◌, find, inl, inr, Bool-cases,
  Option-cases, ◌==◌, ◌↔◌, ok,
}
use lied.Domain.User.{User}
use lied.Domain.Membership.{Table, role_of, into_membership, find_by_user_and_org}
use lied.Domain.Membership.Roles.{Role, owner, archivist, conductor, musician, is_staff}
use lied.Auth.Authz.{full_program, coverage_scope_for}
use lied.WebDav.Access.{is_staff_view, visibility_for, role_in_org}

visibility_for-is_staff : (r : Role) → is_staff_view (visibility_for (some r)) ≡ is_staff r
unfolding is_staff_view visibility_for is_staff
visibility_for-is_staff owner = refl
visibility_for-is_staff archivist = refl
visibility_for-is_staff conductor = refl
visibility_for-is_staff musician = refl

-- The two queries of a membership ask the same in another order.
find-swap :
    (o u : ℕ) (rows : Table)
    → find (λ r. r.organization_id == o && r.user_id == u) rows
      ≡ find (λ r. r.user_id == u && r.organization_id == o) rows
find-swap o u [] = refl
find-swap o u (r ∷ rows) = elim (Bool-cases (r.organization_id == o)) [
  | inl e ↦ elim (Bool-cases (r.user_id == u)) [
    | inl k ↦ rw (e, k) refl
    | inr k ↦ rw (e, k) (find-swap o u rows)
  ]
  | inr e ↦ elim (Bool-cases (r.user_id == u)) [
    | inl k ↦ rw (e, k) (find-swap o u rows)
    | inr k ↦ rw (e, k) (find-swap o u rows)
  ]
]

-- For a user who is not a system administrator, the WebDAV tree of an organization is shown as to
-- staff exactly when the coverage of its whole programme is.
pub staff_view_iff :
    (user : User) (o : ℕ) (rows : Table)
    → user.is_system_admin ≡ false
    → (is_staff_view (visibility_for (role_in_org o user.id rows)) ≡ true)
      ↔ (coverage_scope_for user o rows ≡ ok full_program)
unfolding role_in_org coverage_scope_for find_by_user_and_org into_membership visibility_for
    is_staff_view
staff_view_iff user o rows a =
    let swap = find-swap o user.id rows in
    elim (Option-cases (find (λ r. r.user_id == user.id && r.organization_id == o) rows)) [
      | inl e ↦ (
        λ h. let h' = rw (role_in_org, swap, e) at h in absurd (cc),
        λ h. let h' = rw (coverage_scope_for, a, find_by_user_and_org, e) at h in absurd (cc),
      )
      | inr (r, e) ↦
          let view = visibility_for-is_staff (role_of r.role) in
          elim (Bool-cases (is_staff (role_of r.role))) [
            | inl s ↦ (
              λ _. rw (coverage_scope_for, a, find_by_user_and_org, e, s) refl,
              λ _. rw (role_in_org, swap, e) (view ∙ s),
            )
            | inr s ↦ (
              λ h.
                  let h' = rw (role_in_org, swap, e) at h in
                  let clash = sym h' ∙ view ∙ s in absurd (cc),
              λ h.
                  let h' = rw (coverage_scope_for, a, find_by_user_and_org, e, s) at h in
                  elim (Bool-cases r.is_principal) [
                    | inl p ↦ let h'' = rw p at h' in absurd (cc)
                    | inr p ↦ let h'' = rw p at h' in absurd (cc)
                  ],
            )
          ]
    ]
