-- ===== src/Tests/Reviews.antt =====
-- The leader asks to revoke the first phase once it is promoted, and the administrator reviews that.
use project_lifecycle_manage.Base.{
  ◌≡◌, refl, none, some, [], true, false, codes, strip, find?, sort_by, filter, all, put, insert_by,
  ℕ, ◌++◌, ◌∷◌,
}
use project_lifecycle_manage.Model.{
  Db, Phase, SubProject, RevokeRequest, approve, reject, approved, rejected, is_completed,
  is_locked_project, PhaseStatus, Notice, pending,
}
use project_lifecycle_manage.Errors.{ok, err, business, request_not_pending}
use project_lifecycle_manage.Queries.{get_phase, get_sub_project, latest_documents, send, phases_in}
use project_lifecycle_manage.Revokes.Service.{
  RevokeRequestCreate, submit_request, review_request, get_request, clean_optional_text,
  new_request, ensure_phase_can_be_revoked, get_pending_request_by_phase, review_decision,
}
use project_lifecycle_manage.Revokes.Review.{review_request_approve, review_request_reject}
use project_lifecycle_manage.Revokes.Pending.{
  IsSubmitted, one_pending, submit_request-IsSubmitted, submit_request-one_pending,
  review_request_once,
}
use project_lifecycle_manage.Revokes.Soundness.{submit_request-IsSound, review_request-IsSound}
use project_lifecycle_manage.Phases.Service.{
  promote_phase, documents_to_check, notify_promoted, complete_phase, activate_next_phase,
}
use project_lifecycle_manage.Phases.Completion.{promote_phase-IsSound}
use project_lifecycle_manage.Phases.Invariant.{IsSound}
use project_lifecycle_manage.Tests.Data.{value, env, leader, boss, no_request_yet, db}
use project_lifecycle_manage.Tests.Promotions.{promotes1, db-IsSound, db1}
use project_lifecycle_manage.Phases.Guards.{
  can_operate_phase, procurement_selected, incomplete_phase_nos, ensure_acceptance_steps_completed,
  steps_apply, ensure_required_documents_uploaded, missing_from,
}
use project_lifecycle_manage.Phases.Rules.{
  required_documents_for_phase, list_required_doc_templates,
}

abbrev pub payload : RevokeRequestCreate
payload = record { phase_id = 11; reason = codes " wrong file "; keep_documents = false }

abbrev submitted : Db × RevokeRequest
submitted = value (db1, no_request_yet) (submit_request env leader payload db1)

pub submits1 : submit_request env leader payload db1 ≡ ok submitted
unfolding submit_request promote_phase strip get_phase find? get_sub_project can_operate_phase
    procurement_selected required_documents_for_phase incomplete_phase_nos
    ensure_acceptance_steps_completed steps_apply ensure_required_documents_uploaded missing_from
    documents_to_check list_required_doc_templates sort_by filter notify_promoted send
    complete_phase all phases_in activate_next_phase put insert_by ensure_phase_can_be_revoked
    get_pending_request_by_phase
submits1 = refl

one : one_pending db1.revoke_requests ≡ true
unfolding one_pending promote_phase get_phase find? get_sub_project can_operate_phase
    procurement_selected required_documents_for_phase incomplete_phase_nos
    ensure_acceptance_steps_completed steps_apply ensure_required_documents_uploaded missing_from
    documents_to_check list_required_doc_templates sort_by filter notify_promoted send
    complete_phase all phases_in activate_next_phase put insert_by
one = refl

submit_request-IsSubmitted_example :
    (s : IsSubmitted env leader payload db1) × (submitted.1.status ≡ pending)
    × (submitted.1.phase_id ≡ 11)
    × (submitted.1.sub_project_id ≡ s.phase.sub_project_id)
    × (submitted.1.requester_id ≡ 1)
    × (submitted.1.reason ≡ strip payload.reason)
    × (submitted.1.keep_documents ≡ false)
    × (submitted.1.reviewer_id ≡ none)
    × (submitted.1.review_comment ≡ none)
    × (submitted.1.reviewed_at ≡ none)
    × (submitted.1.created_at ≡ 100)
    × (submitted.0.revoke_requests ≡ db1.revoke_requests ++ submitted.1 ∷ [])
    × (get_pending_request_by_phase 11 submitted.0 ≡ some submitted.1)
    × ((n : Notice) × (n.source_id ≡ submitted.1.id)
        × (submitted.0.notices ≡ db1.notices ++ n ∷ []))
    × (submitted.0.phases ≡ db1.phases)
    × (submitted.0.sub_projects ≡ db1.sub_projects)
    × (submitted.0.documents ≡ db1.documents)
submit_request-IsSubmitted_example = submit_request-IsSubmitted env leader payload db1 submits1

submit_request-one_pending_example : one_pending submitted.0.revoke_requests ≡ true
submit_request-one_pending_example = submit_request-one_pending env leader payload db1 one submits1

abbrev pub agreed : Db × RevokeRequest
agreed = value submitted (review_request env boss 1000 approve none submitted.0)

pub agrees : review_request env boss 1000 approve none submitted.0 ≡ ok agreed
unfolding review_request submit_request promote_phase get_request find? strip get_phase
    get_sub_project can_operate_phase procurement_selected required_documents_for_phase
    incomplete_phase_nos ensure_acceptance_steps_completed steps_apply
    ensure_required_documents_uploaded missing_from documents_to_check list_required_doc_templates
    sort_by filter notify_promoted send complete_phase all phases_in activate_next_phase put
    insert_by ensure_phase_can_be_revoked get_pending_request_by_phase new_request review_decision
agrees = refl

abbrev refused : Db × RevokeRequest
refused = value submitted (review_request env boss 1000 reject none submitted.0)

refuses : review_request env boss 1000 reject none submitted.0 ≡ ok refused
unfolding review_request submit_request promote_phase get_request find? strip get_phase
    get_sub_project can_operate_phase procurement_selected required_documents_for_phase
    incomplete_phase_nos ensure_acceptance_steps_completed steps_apply
    ensure_required_documents_uploaded missing_from documents_to_check list_required_doc_templates
    sort_by filter notify_promoted send complete_phase all phases_in activate_next_phase put
    insert_by ensure_phase_can_be_revoked get_pending_request_by_phase new_request review_decision
refuses = refl

review_request_approve_example :
    (phase : Phase) × (sub : SubProject) × (get_phase agreed.1.phase_id submitted.0 ≡ some phase)
    × (get_sub_project agreed.1.sub_project_id submitted.0 ≡ some sub)
    × (is_completed phase.status ≡ true)
    × (is_locked_project sub.status ≡ false)
    × ((p : Phase) × (get_phase phase.id agreed.0 ≡ some p)
        × (p ≡ record phase {
          status = PhaseStatus.in_progress;
          finish_at = none;
          enter_at = p.enter_at;
          updated_at = 100;
        })
        × ((t : ℕ) → phase.enter_at ≡ some t → p.enter_at ≡ some t)
        × (phase.enter_at ≡ none → p.enter_at ≡ some 100))
    × (get_request 1000 agreed.0 ≡ some agreed.1)
    × (agreed.1.status ≡ approved)
    × (agreed.1.keep_documents ≡ true → agreed.0.documents ≡ submitted.0.documents)
    × (agreed.1.keep_documents ≡ false → latest_documents phase.id agreed.0 ≡ [])
    × (agreed.0.sub_projects ≡ submitted.0.sub_projects)
review_request_approve_example = review_request_approve env boss 1000 none submitted.0 agrees

review_request_reject_example :
    (get_request 1000 refused.0 ≡ some refused.1)
    × (refused.1.status ≡ rejected)
    × (refused.1.reviewer_id ≡ some 3)
    × (refused.1.review_comment ≡ clean_optional_text none)
    × (refused.1.reviewed_at ≡ some 100)
    × (refused.0.phases ≡ submitted.0.phases)
    × (refused.0.phase_histories ≡ submitted.0.phase_histories)
    × (refused.0.sub_projects ≡ submitted.0.sub_projects)
    × (refused.0.documents ≡ submitted.0.documents)
review_request_reject_example = review_request_reject env boss 1000 none submitted.0 refuses

review_request_once_example :
    review_request env boss 1000 reject none agreed.0
    ≡ err (business (request_not_pending agreed.1.status))
review_request_once_example =
    review_request_once env boss 1000 approve none submitted.0 agrees env boss reject none refl

review_request-IsSound_example : IsSound agreed.0
review_request-IsSound_example =
    review_request-IsSound env boss 1000 approve none submitted.0
      (submit_request-IsSound env leader payload db1
        (promote_phase-IsSound env leader 11 db db-IsSound promotes1) submits1)
      agrees
