-- ===== src/Tests/Requests.antt =====
-- Runs of backend/app/services/handover_requests.py: a leader asks another to take a sub project over,
-- and the request is approved, or forced after a week.
use project_lifecycle_manage.SubProjects.Members.{hand_over, upsert_handover_members, new_handover}
use project_lifecycle_manage.Base.{
  ◌+◌, ◌≤◌, true, none, List, [], ◌∷◌, ◌≡◌, refl, codes, distinct, filter, find?, ◌+ℤ◌, all, any,
  put,
}
use project_lifecycle_manage.Model.{
  Db, Env, SubProject, HandoverRequest, HandoverRequestStatus, awaits_review, awaits_candidate,
  is_admin,
}
use project_lifecycle_manage.Errors.{ok}
use project_lifecycle_manage.Handovers.Service.{
  HandoverRequestCreate, HandoverCandidateDecision, HandoverReviewDecision, submit_handover_request,
  review_candidate, review_handover_request, force_request, list_request_project_ids,
  can_review_request, admin_force_after, get_handover_request, deduplicate_ids,
  get_active_project_leader, existing_projects, ensure_managed, new_handover_request,
  request_projects_from, apply_transfer, transfer, completion_notice, reviewed_request, answered,
  reviewer_receivers, forced_request,
}
use project_lifecycle_manage.Handovers.Decisions.{
  IsHandedOver, review_handover_request_approve, force_request_effect,
}
use project_lifecycle_manage.Tests.Data.{value, env, leader, boss}
use project_lifecycle_manage.Tests.Portfolios.{approved, second_leader}
use project_lifecycle_manage.Queries.{
  unique_receivers, get_user, get_sub_project, get_main_project, unique_from, contains, get_member,
  list_active_user_ids_by_role,
}
use project_lifecycle_manage.SubProjects.Review.{
  review_sub_project, validate_over_budget, sum_approved_budget, phases_fit, created_phases,
  phases_from, new_phase, phase_definitions_for,
}
use project_lifecycle_manage.SubProjects.Creation.{create_sub_project, new_sub_project, new_member}
use project_lifecycle_manage.Payments.Service.{sum_by}

abbrev request_yet : HandoverRequest
request_yet = record {
  id = 0;
  from_user_id = 0;
  to_user_id = 0;
  reason = [];
  status = HandoverRequestStatus.pending_candidate;
  candidate_comment = none;
  candidate_responded_at = none;
  reviewer_id = none;
  review_comment = none;
  reviewed_at = none;
  forced_by_id = none;
  forced_at = none;
  created_at = 0;
  updated_at = 0;
}

abbrev payload : HandoverRequestCreate
payload = record { sub_project_ids = 1000 ∷ 1000 ∷ []; to_user_id = 6; reason = codes "leave" }

abbrev asked : Db × HandoverRequest
asked = value (approved.0, request_yet) (submit_handover_request env leader payload approved.0)

abbrev confirmed : Db × HandoverRequest
confirmed =
    value asked
      (review_candidate env second_leader 1000 HandoverCandidateDecision.confirm none asked.0)

abbrev passed : Db × HandoverRequest
passed =
    value confirmed
      (review_handover_request env boss 1000 HandoverReviewDecision.approve none confirmed.0)

passes :
    review_handover_request env boss 1000 HandoverReviewDecision.approve none confirmed.0
    ≡ ok passed
unfolding get_handover_request find? submit_handover_request deduplicate_ids unique_receivers
    get_active_project_leader get_user review_sub_project get_sub_project create_sub_project
    get_main_project new_sub_project validate_over_budget ◌+ℤ◌ sum_approved_budget sum_by phases_fit
    all created_phases phases_from any existing_projects put list_request_project_ids filter
    review_candidate ensure_managed new_handover_request request_projects_from unique_from contains
    apply_transfer transfer hand_over upsert_handover_members get_member new_handover
    completion_notice reviewed_request can_review_request answered reviewer_receivers
    list_active_user_ids_by_role review_handover_request new_phase phase_definitions_for new_member
    distinct
passes = refl

confirmed_apart : distinct (λ y. y) (list_request_project_ids 1000 confirmed.0) ≡ true
unfolding distinct list_request_project_ids filter review_candidate get_handover_request find?
    submit_handover_request deduplicate_ids unique_receivers get_active_project_leader get_user
    review_sub_project get_sub_project create_sub_project get_main_project new_sub_project
    validate_over_budget ◌+ℤ◌ sum_approved_budget sum_by phases_fit all created_phases phases_from
    any existing_projects put ensure_managed new_handover_request request_projects_from
confirmed_apart = refl

review_handover_request_approve_example :
    (r : HandoverRequest) × (ps : List SubProject) × IsHandedOver 1000 confirmed.0 passed.0 r
      passed.1 ps
    × (awaits_review r.status ≡ true)
    × (can_review_request boss ps ≡ true)
    × (passed.1.status ≡ HandoverRequestStatus.approved)
review_handover_request_approve_example =
    review_handover_request_approve env boss 1000 none confirmed.0 confirmed_apart passes

abbrev next_week : Env
next_week = record env { now = 100 + admin_force_after }

abbrev forced : Db × HandoverRequest
forced = value asked (force_request next_week boss 1000 asked.0)

forces : force_request next_week boss 1000 asked.0 ≡ ok forced
unfolding force_request get_handover_request find? submit_handover_request deduplicate_ids
    unique_receivers get_active_project_leader get_user review_sub_project get_sub_project
    create_sub_project get_main_project new_sub_project validate_over_budget ◌+ℤ◌
    sum_approved_budget sum_by phases_fit all created_phases phases_from distinct any
    existing_projects put ensure_managed new_handover_request request_projects_from unique_from
    contains apply_transfer transfer hand_over upsert_handover_members get_member new_handover
    completion_notice answered reviewer_receivers list_active_user_ids_by_role forced_request
    review_candidate new_phase phase_definitions_for new_member list_request_project_ids filter
forces = refl

asked_apart : distinct (λ y. y) (list_request_project_ids 1000 asked.0) ≡ true
unfolding distinct list_request_project_ids filter submit_handover_request deduplicate_ids
    unique_receivers get_active_project_leader get_user find? review_sub_project get_sub_project
    create_sub_project get_main_project new_sub_project validate_over_budget ◌+ℤ◌
    sum_approved_budget sum_by phases_fit all created_phases phases_from any existing_projects put
    ensure_managed request_projects_from new_handover_request
asked_apart = refl

force_request_effect_example :
    (r : HandoverRequest) × (ps : List SubProject) × IsHandedOver 1000 asked.0 forced.0 r forced.1
      ps
    × (awaits_candidate r.status ≡ true)
    × (is_admin boss.role ≡ true)
    × (r.created_at + admin_force_after ≤ next_week.now)
    × (forced.1.status ≡ HandoverRequestStatus.forced)
force_request_effect_example = force_request_effect next_week boss 1000 asked.0 asked_apart forces
