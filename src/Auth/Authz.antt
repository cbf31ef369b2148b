-- ===== src/Auth/Authz.antt =====
-- lied/src/auth/authz.rs: the permission checks of the routes, over the membership table.
pub mod Matrix
pub mod Managers
pub mod Coverage
mod Examples
use lied.Prelude.{ℕ, Bool, true, false, Option, none, some, List, Result, ok, err, if◌then◌else◌}
use lied.Error.{AppError, forbidden}
use lied.Domain.User.{User}
use lied.Domain.Membership.{Membership, Table, find_by_user_and_org}
use lied.Domain.Membership.Roles.{
  Role, owner, archivist, conductor, musician, is_staff, can_build_collections,
}

-- The arms of the source, by the minimum.
unfoldable pub at_least : Role → Role → Bool
at_least owner owner = true
at_least archivist owner = false
at_least conductor owner = false
at_least musician owner = false
at_least owner archivist = true
at_least archivist archivist = true
at_least conductor archivist = false
at_least musician archivist = false
at_least owner conductor = true
at_least archivist conductor = false
at_least conductor conductor = true
at_least musician conductor = false
at_least owner musician = true
at_least archivist musician = true
at_least conductor musician = true
at_least musician musician = true

unfoldable pub require_system_admin : User → Result AppError (Unit {0})
require_system_admin user = if user.is_system_admin then ok tt else err forbidden

abbrev meets : Role → Option Membership → Result AppError (Option Membership)
meets minimum none = err forbidden
meets minimum (some m) = if at_least m.role minimum then ok (some m) else err forbidden

unfoldable pub require_org_role : User → ℕ → Role → Table → Result AppError (Option Membership)
unfolding at_least find_by_user_and_org
require_org_role user organization_id minimum rows =
    if user.is_system_admin
    then ok none
    else meets minimum (find_by_user_and_org user.id organization_id rows)

pub data CoverageScope : Type 0 where
  full_program : CoverageScope
  section_of : List ℕ → CoverageScope

abbrev scope_of : Option Membership → Result AppError CoverageScope
scope_of none = err forbidden
scope_of (some m) =
    if is_staff m.role
    then ok full_program
    else if m.is_principal
    then ok (section_of m.principal_instrument_ids)
    else err forbidden

unfoldable pub coverage_scope_for : User → ℕ → Table → Result AppError CoverageScope
unfolding is_staff find_by_user_and_org
coverage_scope_for user organization_id rows =
    if user.is_system_admin
    then ok full_program
    else scope_of (find_by_user_and_org user.id organization_id rows)

abbrev edits : Option Membership → Result AppError (Unit {0})
edits none = err forbidden
edits (some m) = if can_build_collections m.role then ok tt else err forbidden

unfoldable pub require_collection_editor : User → ℕ → Table → Result AppError (Unit {0})
unfolding can_build_collections find_by_user_and_org
require_collection_editor user organization_id rows =
    if user.is_system_admin
    then ok tt
    else edits (find_by_user_and_org user.id organization_id rows)
