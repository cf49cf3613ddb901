-- ===== src/Model/Handovers.antt =====
-- backend/app/models/handover_requests.py: requests to hand sub projects over to another leader.
use project_lifecycle_manage.Base.{ℕ, Text, Option, Bool, true, false}

pub data HandoverRequestStatus : Type 0 where
  pending_candidate candidate_rejected pending_review review_rejected approved forced :
      HandoverRequestStatus

pub record HandoverRequest : Type 0 where
  pub id : ℕ
  pub from_user_id : ℕ
  pub to_user_id : ℕ
  pub reason : Text
  pub status : HandoverRequestStatus
  pub candidate_comment : Option Text
  pub candidate_responded_at : Option ℕ
  pub reviewer_id : Option ℕ
  pub review_comment : Option Text
  pub reviewed_at : Option ℕ
  pub forced_by_id : Option ℕ
  pub forced_at : Option ℕ
  pub created_at : ℕ
  pub updated_at : ℕ

pub record HandoverRequestProject : Type 0 where
  pub id : ℕ
  pub request_id : ℕ
  pub sub_project_id : ℕ
  pub created_at : ℕ

abbrev pub awaits_candidate : HandoverRequestStatus → Bool
awaits_candidate pending_candidate = true
awaits_candidate _ = false

abbrev pub awaits_review : HandoverRequestStatus → Bool
awaits_review pending_review = true
awaits_review _ = false
