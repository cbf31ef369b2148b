-- ===== src/Domain/Entities.antt =====
-- The columns that joins read of the organizations, collections, arrangements and voices of
-- lied/src/domain. A time is the number of microseconds since the epoch.
use lied.Prelude.{ℕ, Option}
use lied.Prelude.Text.{Text}

pub record Organization : Type 0 where
  pub id : ℕ
  pub slug : Text

pub record Collection : Type 0 where
  pub id : ℕ
  pub organization_id : ℕ
  pub slug : Text
  pub deleted_at : Option ℕ

pub record Arrangement : Type 0 where
  pub id : ℕ
  pub organization_id : ℕ
  pub slug : Text
  pub deleted_at : Option ℕ

pub record Voice : Type 0 where
  pub id : ℕ
  pub arrangement_id : ℕ
  pub slug : Text
  pub deleted_at : Option ℕ
