-- ===== src/Model/Records.antt =====
-- The rows that hang on a phase or a sub project: backend/app/models/documents.py,
-- acceptance_steps.py, revoke_requests.py, payments.py and tasks.py.
use project_lifecycle_manage.Base.{ℕ, ℤ, Text, Option, List, Bool, true, false}

pub record Document : Type 0 where
  pub id : ℕ
  pub sub_project_id : ℕ
  pub phase_id : ℕ
  pub acceptance_step_id : Option ℕ
  pub doc_type : Text
  pub file_name : Text
  pub file_path : Text
  pub file_size : ℕ
  pub version : ℕ
  pub is_latest : Bool
  pub is_deleted : Bool
  pub uploader_id : ℕ
  pub created_at : ℕ
  pub updated_at : ℕ

pub data AcceptanceStepStatus : Type 0 where
  not_started in_progress completed : AcceptanceStepStatus

pub record AcceptanceStep : Type 0 where
  pub id : ℕ
  pub phase_id : ℕ
  pub step_no : ℤ
  pub step_name : Text
  pub responsible_id : ℕ
  pub plan_date : Option ℕ
  pub description : Option Text
  pub status : AcceptanceStepStatus
  pub completed_at : Option ℕ
  pub created_at : ℕ
  pub updated_at : ℕ

pub data RevokeRequestStatus : Type 0 where
  pending approved rejected : RevokeRequestStatus

pub data RevokeReviewDecision : Type 0 where
  approve reject : RevokeReviewDecision

pub record RevokeRequest : Type 0 where
  pub id : ℕ
  pub phase_id : ℕ
  pub sub_project_id : ℕ
  pub requester_id : ℕ
  pub reason : Text
  pub keep_documents : Bool
  pub status : RevokeRequestStatus
  pub reviewer_id : Option ℕ
  pub review_comment : Option Text
  pub reviewed_at : Option ℕ
  pub created_at : ℕ
  pub updated_at : ℕ

pub data PaymentType : Type 0 where
  normal reversal : PaymentType

pub record Payment : Type 0 where
  pub id : ℕ
  pub payment_no : Text
  pub sub_project_id : ℕ
  pub amount : ℤ
  pub payment_date : ℕ
  pub remark : Option Text
  pub payment_type : PaymentType
  pub reverses_payment_id : Option ℕ
  pub operator_id : Option ℕ
  pub created_at : ℕ
  pub updated_at : ℕ

pub record PaymentVoucher : Type 0 where
  pub id : ℕ
  pub payment_id : ℕ
  pub document_id : ℕ

pub data TaskStatus : Type 0 where
  not_started in_progress overdue completed : TaskStatus

pub record TaskExecutor : Type 0 where
  pub id : ℕ
  pub task_id : ℕ
  pub user_id : ℕ
  pub plan_end_date : ℕ
  pub actual_end_date : Option ℕ
  pub status : TaskStatus
  pub created_at : ℕ
  pub updated_at : ℕ

-- The relationship `Task.executors` is a field.
pub record Task : Type 0 where
  pub id : ℕ
  pub task_no : Text
  pub sub_project_id : ℕ
  pub phase_id : ℕ
  pub name : Text
  pub plan_end_date : ℕ
  pub status : TaskStatus
  pub executors : List TaskExecutor
  pub created_at : ℕ
  pub updated_at : ℕ

abbrev pub is_completed_step : AcceptanceStepStatus → Bool
is_completed_step AcceptanceStepStatus.completed = true
is_completed_step _ = false

abbrev pub is_pending : RevokeRequestStatus → Bool
is_pending pending = true
is_pending _ = false

abbrev pub is_reversal : PaymentType → Bool
is_reversal reversal = true
is_reversal normal = false
