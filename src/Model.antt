-- ===== src/Model.antt =====
-- The database that the services share: one list of rows for each table of backend/app/models, and
-- the calls that leave the process, in order.
mod People
mod Projects
mod Phases
mod Records
mod Handovers
pub use People.*
pub use Projects.{
  MainProjectStatus, MainProject, ProjectReviewDecision, ColumnValue, text_value, id_value,
  date_value, money_value, null, FieldChange, SubProjectStatus, SubProjectMemberRole, SubProject,
  SubProjectMember, ProjectReview, SubProjectHandover, SubProjectNoCounter, is_completed_project,
  is_locked_project, is_open_main, is_approved_project, is_active_handover, is_pending_project,
  is_rejected_project, is_started_project, is_closed_project, is_ended_project, is_pending_main,
  is_rejected_main, is_closed_main, is_leader_role,
}
pub use Phases.*
pub use Records.{
  Document, AcceptanceStepStatus, AcceptanceStep, RevokeRequestStatus, pending, approved, rejected,
  RevokeReviewDecision, approve, reject, RevokeRequest, PaymentType, normal, reversal, Payment,
  PaymentVoucher, TaskStatus, TaskExecutor, Task, is_completed_step, is_pending, is_reversal,
}
pub use Handovers.{
  HandoverRequestStatus, HandoverRequest, HandoverRequestProject, awaits_candidate, awaits_review,
}
use project_lifecycle_manage.Base.{ℕ, List, Text}

-- A call `NotificationService.send(scenario, receivers, source_id, ...)`.
pub record Notice : Type 0 where
  pub scenario : Text
  pub receivers : List ℕ
  pub source_id : ℕ

-- What `AuditLogWriter.enqueue` is given by the review of a revoke request.
pub record ReviewAudit : Type 0 where
  pub actor_id : ℕ
  pub request_id : ℕ
  pub before_phase : PhaseStatus
  pub before_request : RevokeRequestStatus
  pub after_phase : PhaseStatus
  pub after_request : RevokeRequestStatus
  pub document_ids_soft_deleted : List ℕ
  pub preserved_task_ids : List ℕ

-- What the other services give it; the states before and after, the context and `extra` are left out.
pub record AuditEntry : Type 0 where
  pub actor_id : ℕ
  pub action : Text
  pub target_type : Text
  pub target_id : ℕ

pub record Db : Type 0 where
  pub users : List User
  pub main_projects : List MainProject
  pub sub_projects : List SubProject
  pub members : List SubProjectMember
  pub phases : List Phase
  pub phase_histories : List PhaseHistory
  pub phase_doc_templates : List PhaseDocTemplate
  pub workflow_versions : List WorkflowTemplateVersion
  pub documents : List Document
  pub acceptance_steps : List AcceptanceStep
  pub revoke_requests : List RevokeRequest
  pub payments : List Payment
  pub payment_vouchers : List PaymentVoucher
  pub tasks : List Task
  pub notices : List Notice
  pub audits : List ReviewAudit
  pub audit_entries : List AuditEntry
  pub project_reviews : List ProjectReview
  pub sub_project_handovers : List SubProjectHandover
  pub sub_project_no_counters : List SubProjectNoCounter
  pub main_project_no_seq : ℕ
  pub workflow_templates : List WorkflowTemplate
  pub handover_requests : List HandoverRequest
  pub handover_request_projects : List HandoverRequestProject
  pub project_types : List ProjectType
