-- ===== src/Domain/User.antt =====
-- `User` of lied/src/domain/user.rs.
use lied.Prelude.{ℕ, Bool, Option}
use lied.Prelude.Text.{Text}

pub record User : Type 0 where
  pub id : ℕ
  pub slug : Text
  pub username : Text
  pub email : Option Text
  pub display_name : Text
  pub is_system_admin : Bool
  pub created_at : ℕ
  pub updated_at : ℕ
