-- ===== src/Model/People.antt =====
-- backend/app/models/users.py, and the caller's clock, calendar and `uuid4` draws.
use project_lifecycle_manage.Base.{ℕ, Text, Option, Bool, true, false}

pub data UserRole : Type 0 where
  admin dept_manager finance_manager proj_leader proj_member : UserRole

pub data UserStatus : Type 0 where
  active disabled password_reset_required : UserStatus

-- Ids are the numbers of their UUIDs.
pub record User : Type 0 where
  pub id : ℕ
  pub username : Text
  pub role : UserRole
  pub dept_id : Option ℕ
  pub status : UserStatus

-- `datetime.now(UTC)`, the date of today, its year and the ids that the call draws, in order.
pub record Env : Type 0 where
  pub now : ℕ
  pub today : ℕ
  pub this_year : ℕ
  pub uuid : ℕ → ℕ

abbrev pub is_admin : UserRole → Bool
is_admin admin = true
is_admin _ = false

abbrev pub is_dept_manager : UserRole → Bool
is_dept_manager dept_manager = true
is_dept_manager _ = false

abbrev pub is_finance_manager : UserRole → Bool
is_finance_manager finance_manager = true
is_finance_manager _ = false

abbrev pub is_proj_leader : UserRole → Bool
is_proj_leader proj_leader = true
is_proj_leader _ = false

abbrev pub is_active_user : UserStatus → Bool
is_active_user active = true
is_active_user _ = false

abbrev pub is_proj_member : UserRole → Bool
is_proj_member proj_member = true
is_proj_member _ = false

abbrev pub is_disabled : UserStatus → Bool
is_disabled disabled = true
is_disabled _ = false
