-- ===== src/Model/Projects.antt =====
-- backend/app/models/main_projects.py and backend/app/models/sub_projects.py. Money is a number of
-- cents, as the columns Numeric(15, 2) hold it.
use project_lifecycle_manage.Base.{ℕ, ℤ, Text, Option, List, Bool, true, false}

pub data MainProjectStatus : Type 0 where
  pending_review reviewing rejected not_started in_progress completed closed : MainProjectStatus

pub record MainProject : Type 0 where
  pub id : ℕ
  pub project_no : Text
  pub name : Text
  pub dept_id : ℕ
  pub status : MainProjectStatus
  pub total_budget : ℤ
  pub expected_finish_date : ℕ
  pub spent_amount : ℤ
  pub remark : Option Text
  pub closed_at : Option ℕ
  pub creator_id : Option ℕ
  pub project_type_id : Option ℕ
  pub created_at : ℕ
  pub updated_at : ℕ

pub data ProjectReviewDecision : Type 0 where
  approve reject : ProjectReviewDecision

-- A value of a column that the review of a main project may change.
pub data ColumnValue : Type 0 where
  text_value : Text → ColumnValue
  id_value date_value : ℕ → ColumnValue
  money_value : ℤ → ColumnValue
  null : ColumnValue

-- An entry of `modified_fields`, with the column's name.
pub record FieldChange : Type 0 where
  pub field : Text
  pub before : ColumnValue
  pub after : ColumnValue

pub data SubProjectStatus : Type 0 where
  pending_review reviewing rejected not_started in_progress completed closed terminated :
      SubProjectStatus

pub data SubProjectMemberRole : Type 0 where
  proj_leader proj_member : SubProjectMemberRole

pub record SubProject : Type 0 where
  pub id : ℕ
  pub project_no : Text
  pub name : Text
  pub main_project_id : ℕ
  pub dept_id : ℕ
  pub budget : ℤ
  pub manager_id : ℕ
  pub creator_id : Option ℕ
  pub status : SubProjectStatus
  pub plan_end_date : Option ℕ
  pub actual_end_date : Option ℕ
  pub spent_amount : ℤ
  pub remark : Option Text
  pub closed_at : Option ℕ
  pub workflow_template_version_id : Option ℕ
  pub created_at : ℕ
  pub updated_at : ℕ

pub record SubProjectMember : Type 0 where
  pub id : ℕ
  pub sub_project_id : ℕ
  pub user_id : ℕ
  pub role_in_project : SubProjectMemberRole
  pub joined_at : ℕ

pub record ProjectReview : Type 0 where
  pub id : ℕ
  pub main_project_id : Option ℕ
  pub sub_project_id : Option ℕ
  pub reviewer_id : ℕ
  pub decision : ProjectReviewDecision
  pub from_status : MainProjectStatus
  pub to_status : MainProjectStatus
  pub review_comment : Option Text
  pub modified_fields : List FieldChange
  pub admin_override : Bool
  pub reviewed_at : ℕ

pub record SubProjectHandover : Type 0 where
  pub id : ℕ
  pub sub_project_id : ℕ
  pub from_user_id : ℕ
  pub to_user_id : ℕ
  pub reason : Text
  pub operator_id : ℕ
  pub operated_at : ℕ

pub record SubProjectNoCounter : Type 0 where
  pub main_project_id : ℕ
  pub next_sequence : ℕ

abbrev pub is_completed_project : SubProjectStatus → Bool
is_completed_project SubProjectStatus.completed = true
is_completed_project _ = false

-- The frozensets {completed, closed, terminated} of the revoke and payment services.
abbrev pub is_locked_project : SubProjectStatus → Bool
is_locked_project SubProjectStatus.completed = true
is_locked_project SubProjectStatus.closed = true
is_locked_project SubProjectStatus.terminated = true
is_locked_project _ = false

-- OPEN_MAIN_PROJECT_STATUSES
abbrev pub is_open_main : MainProjectStatus → Bool
is_open_main MainProjectStatus.not_started = true
is_open_main MainProjectStatus.in_progress = true
is_open_main _ = false

-- APPROVED_SUB_PROJECT_STATUSES
abbrev pub is_approved_project : SubProjectStatus → Bool
is_approved_project SubProjectStatus.not_started = true
is_approved_project SubProjectStatus.in_progress = true
is_approved_project SubProjectStatus.completed = true
is_approved_project SubProjectStatus.closed = true
is_approved_project _ = false

-- ACTIVE_HANDOVER_STATUSES
abbrev pub is_active_handover : SubProjectStatus → Bool
is_active_handover SubProjectStatus.not_started = true
is_active_handover SubProjectStatus.in_progress = true
is_active_handover SubProjectStatus.completed = true
is_active_handover _ = false

abbrev pub is_pending_project : SubProjectStatus → Bool
is_pending_project SubProjectStatus.pending_review = true
is_pending_project _ = false

abbrev pub is_rejected_project : SubProjectStatus → Bool
is_rejected_project SubProjectStatus.rejected = true
is_rejected_project _ = false

abbrev pub is_started_project : SubProjectStatus → Bool
is_started_project SubProjectStatus.in_progress = true
is_started_project _ = false

abbrev pub is_closed_project : SubProjectStatus → Bool
is_closed_project SubProjectStatus.closed = true
is_closed_project _ = false

-- {closed, terminated}
abbrev pub is_ended_project : SubProjectStatus → Bool
is_ended_project SubProjectStatus.closed = true
is_ended_project SubProjectStatus.terminated = true
is_ended_project _ = false

abbrev pub is_pending_main : MainProjectStatus → Bool
is_pending_main MainProjectStatus.pending_review = true
is_pending_main _ = false

abbrev pub is_rejected_main : MainProjectStatus → Bool
is_rejected_main MainProjectStatus.rejected = true
is_rejected_main _ = false

abbrev pub is_closed_main : MainProjectStatus → Bool
is_closed_main MainProjectStatus.closed = true
is_closed_main _ = false

abbrev pub is_leader_role : SubProjectMemberRole → Bool
is_leader_role proj_leader = true
is_leader_role proj_member = false
