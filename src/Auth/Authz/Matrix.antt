-- ===== src/Auth/Authz/Matrix.antt =====
-- The thresholds of lied/src/auth/authz.rs and the permission matrix of
-- lied/src/domain/membership.rs.
use lied.Prelude.{◌≡◌, refl, ◌||◌}
use lied.Domain.Membership.Roles.{
  Role, owner, archivist, conductor, musician, is_staff, can_edit_arrangements,
  can_build_collections, can_manage_members, can_author_global_annotations,
}
use lied.Auth.Authz.{at_least}

-- For every role, meeting a threshold and having the capability that the threshold stands for are
-- the same: owner and managing members, archivist and editing arrangements, conductor and authoring
-- global annotations; and whoever meets the archivist's or the conductor's may build collections.
pub at_least-matrix :
    (r : Role)
    → (at_least r owner ≡ can_manage_members r)
      × (at_least r archivist ≡ can_edit_arrangements r)
      × (at_least r conductor ≡ can_author_global_annotations r)
      × ((at_least r archivist || at_least r conductor) ≡ can_build_collections r)
unfolding at_least is_staff can_edit_arrangements can_build_collections can_manage_members
    can_author_global_annotations
at_least-matrix owner = (refl, refl, refl, refl)
at_least-matrix archivist = (refl, refl, refl, refl)
at_least-matrix conductor = (refl, refl, refl, refl)
at_least-matrix musician = (refl, refl, refl, refl)
