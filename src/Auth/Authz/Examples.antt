-- ===== src/Auth/Authz/Examples.antt =====
-- Tests of lied/src/auth/authz.rs.
use lied.Prelude.{ℕ, ◌≡◌, refl, true, false, none, [], ◌∷◌, ok, err}
use lied.Prelude.Text.{codes}
use lied.Error.{forbidden, status}
use lied.Domain.User.{User}
use lied.Domain.Membership.{delete}
use lied.Domain.Membership.Roles.{owner, musician, as_str, parse_role}
use lied.Domain.Membership.Owners.{without}
use lied.Domain.Membership.Examples.{member, orchestra, instruments, orchestra-IsConsistent}
use lied.Auth.Authz.{require_system_admin, require_org_role, coverage_scope_for, section_of}
use lied.Auth.Authz.Managers.{IsManaged, delete-IsManaged}

abbrev player : User
player = record {
  id = 12;
  slug = codes "ann";
  username = codes "ann";
  email = none;
  display_name = codes "Ann";
  is_system_admin = false;
  created_at = 1;
  updated_at = 1;
}

abbrev user_of : ℕ → User
user_of u = record player { id = u }

delete-IsManaged_example : IsManaged user_of 5 (without 1 orchestra)
unfolding delete as_str parse_role
delete-IsManaged_example =
    delete-IsManaged user_of (λ u. refl) instruments 5 1 orchestra orchestra-IsConsistent refl refl

refused :
    (require_system_admin player ≡ err forbidden)
    × (require_org_role player 5 owner orchestra ≡ err forbidden)
    × (coverage_scope_for player 5 orchestra ≡ err forbidden)
    × (status forbidden ≡ 403)
unfolding require_system_admin require_org_role as_str parse_role coverage_scope_for status
refused = (refl, refl, refl, refl)

section_leader :
    coverage_scope_for player 5 (record (member 2 12 musician) { is_principal = true } ∷ [])
    ≡ ok (section_of (32 ∷ []))
unfolding as_str parse_role coverage_scope_for
section_leader = refl
