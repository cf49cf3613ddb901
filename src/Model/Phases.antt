-- ===== src/Model/Phases.antt =====
-- backend/app/models/phases.py, with the phase definitions of backend/app/models/workflows.py.
use project_lifecycle_manage.Base.{ℕ, Text, Option, none, some, List, Bool, true, false}

pub data PhaseStatus : Type 0 where
  waiting in_progress completed revoked : PhaseStatus

pub data ProcurementType : Type 0 where
  inquiry bidding single_source : ProcurementType

pub data PhaseDocRequirement : Type 0 where
  required conditional optional : PhaseDocRequirement

pub record Phase : Type 0 where
  pub id : ℕ
  pub sub_project_id : ℕ
  pub phase_no : ℕ
  pub code : Text
  pub name : Text
  pub status : PhaseStatus
  pub enter_at : Option ℕ
  pub finish_at : Option ℕ
  pub procurement_type : Option ProcurementType
  pub created_at : ℕ
  pub updated_at : ℕ

pub record PhaseDocTemplate : Type 0 where
  pub id : ℕ
  pub phase_no : ℕ
  pub doc_type : Text
  pub requirement : PhaseDocRequirement
  pub qty_rule : Text
  pub procurement_type : Option ProcurementType
  pub is_active : Bool

pub record PhaseHistory : Type 0 where
  pub id : ℕ
  pub phase_id : ℕ
  pub from_status : Option PhaseStatus
  pub to_status : PhaseStatus
  pub changed_by_id : Option ℕ
  pub changed_at : ℕ
  pub note : Option Text

-- The dataclass of backend/app/services/phases.py.
pub record PaymentVoucherCoverage : Type 0 where
  pub payment_count : ℕ
  pub covered_payment_count : ℕ
  pub voucher_count : ℕ
  pub missing_payment_ids : List ℕ

-- An entry of the JSON list `required_documents`: another JSON value, or an object.
pub data RequiredDocument : Type 0 where
  not_an_object : RequiredDocument
  required_document :
      (doc_type : Text) (requirement : PhaseDocRequirement) (qty_rule : Text)
      (procurement_type : Option ProcurementType)
      → RequiredDocument

pub record PhaseDefinition : Type 0 where
  pub order : ℕ
  pub key : Text
  pub name : Text
  pub required_documents : List RequiredDocument

pub data WorkflowTemplateStatus : Type 0 where
  draft published archived : WorkflowTemplateStatus

-- backend/app/models/project_types.py
pub record ProjectType : Type 0 where
  pub id : ℕ
  pub code : Text
  pub name : Text

pub record WorkflowTemplate : Type 0 where
  pub id : ℕ
  pub project_type_id : ℕ
  pub name : Text
  pub status : WorkflowTemplateStatus

pub record WorkflowTemplateVersion : Type 0 where
  pub id : ℕ
  pub template_id : ℕ
  pub version_no : ℕ
  pub status : WorkflowTemplateStatus
  pub phase_definitions : List PhaseDefinition
  pub published_at : Option ℕ

abbrev pub is_published : WorkflowTemplateStatus → Bool
is_published published = true
is_published _ = false

abbrev pub is_in_progress : PhaseStatus → Bool
is_in_progress in_progress = true
is_in_progress _ = false

abbrev pub is_completed : PhaseStatus → Bool
is_completed completed = true
is_completed _ = false

abbrev pub is_waiting : PhaseStatus → Bool
is_waiting waiting = true
is_waiting _ = false

abbrev procurement_eq : ProcurementType → ProcurementType → Bool
procurement_eq inquiry inquiry = true
procurement_eq bidding bidding = true
procurement_eq single_source single_source = true
procurement_eq _ _ = false

-- `phase.procurement_type == t`
abbrev pub has_procurement : Option ProcurementType → ProcurementType → Bool
has_procurement none t = false
has_procurement (some p) t = procurement_eq p t

abbrev pub is_required : PhaseDocRequirement → Bool
is_required required = true
is_required _ = false

abbrev pub is_conditional : PhaseDocRequirement → Bool
is_conditional conditional = true
is_conditional _ = false

abbrev pub is_draft : WorkflowTemplateStatus → Bool
is_draft draft = true
is_draft _ = false
