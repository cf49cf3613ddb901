-- ===== src/Tests/Histories.antt =====
-- A history: a phase is promoted, its revoke is asked for and granted, as in the other runs, and the
-- sub project is terminated.
use project_lifecycle_manage.Base.{
  none, refl, ◌≡◌, true, ◌==◌, all, any, distinct, find?, strip, sort_by, filter, put, insert_by,
}
use project_lifecycle_manage.Model.{approve, Db, SubProject}
use project_lifecycle_manage.Errors.{ok}
use project_lifecycle_manage.Portfolio.{terminates}
use project_lifecycle_manage.SubProjects.Closing.{terminate_sub_project}
use project_lifecycle_manage.System.{
  ◌⟶*◌, promotes, submits, reviews, manages, IsKeyed, stay, and_then,
}
use project_lifecycle_manage.System.Reachability.{IsConsistent, reachable-IsConsistent}
use project_lifecycle_manage.System.Ledger.{IsLater, reachable-IsLater}
use project_lifecycle_manage.Revokes.Pending.{one_pending}
use project_lifecycle_manage.Tests.Data.{value, env, leader, boss, db, sub}
use project_lifecycle_manage.Tests.Promotions.{promotes1, db-IsSound}
use project_lifecycle_manage.Tests.Reviews.{payload, submits1, agrees, agreed}
use project_lifecycle_manage.Tests.Spendings.{db-IsBalanced}
use project_lifecycle_manage.Queries.{get_sub_project, get_phase, send, phases_in}
use project_lifecycle_manage.Revokes.Service.{
  review_request, get_request, submit_request, ensure_phase_can_be_revoked,
  get_pending_request_by_phase, new_request, review_decision, record_review, apply_approval,
}
use project_lifecycle_manage.Phases.Service.{
  promote_phase, documents_to_check, notify_promoted, complete_phase, activate_next_phase,
}
use project_lifecycle_manage.Phases.Guards.{
  can_operate_phase, procurement_selected, incomplete_phase_nos, ensure_acceptance_steps_completed,
  steps_apply, ensure_required_documents_uploaded, missing_from,
}
use project_lifecycle_manage.Phases.Rules.{
  required_documents_for_phase, list_required_doc_templates,
}

db-IsConsistent : IsConsistent db
unfolding one_pending
db-IsConsistent = record { sound = db-IsSound; balanced = db-IsBalanced; one = refl }

abbrev ended_early : Db × SubProject
ended_early = value (agreed.0, sub) (terminate_sub_project env boss 9 agreed.0)

terminates1 : terminate_sub_project env boss 9 agreed.0 ≡ ok ended_early
unfolding terminate_sub_project get_sub_project find? review_request get_request submit_request
    strip get_phase promote_phase can_operate_phase procurement_selected
    required_documents_for_phase incomplete_phase_nos ensure_acceptance_steps_completed steps_apply
    ensure_required_documents_uploaded missing_from documents_to_check list_required_doc_templates
    sort_by filter notify_promoted send complete_phase all phases_in activate_next_phase put
    insert_by ensure_phase_can_be_revoked get_pending_request_by_phase new_request review_decision
    record_review apply_approval
terminates1 = refl

sub_keys : distinct (λ s. s.id) ended_early.0.sub_projects ≡ true
unfolding distinct terminate_sub_project get_sub_project find? review_request get_request
    submit_request strip get_phase promote_phase can_operate_phase procurement_selected
    required_documents_for_phase incomplete_phase_nos ensure_acceptance_steps_completed steps_apply
    ensure_required_documents_uploaded missing_from documents_to_check list_required_doc_templates
    sort_by filter notify_promoted send complete_phase all phases_in activate_next_phase put
    insert_by ensure_phase_can_be_revoked get_pending_request_by_phase new_request review_decision
    record_review apply_approval
sub_keys = refl

phase_keys : distinct (λ p. p.id) ended_early.0.phases ≡ true
unfolding distinct terminate_sub_project get_sub_project find? review_request get_request
    submit_request strip get_phase promote_phase can_operate_phase procurement_selected
    required_documents_for_phase incomplete_phase_nos ensure_acceptance_steps_completed steps_apply
    ensure_required_documents_uploaded missing_from documents_to_check list_required_doc_templates
    sort_by filter notify_promoted send complete_phase all phases_in activate_next_phase put
    insert_by ensure_phase_can_be_revoked get_pending_request_by_phase new_request review_decision
    record_review apply_approval
phase_keys = refl

main_keys : distinct (λ m. m.id) ended_early.0.main_projects ≡ true
unfolding distinct terminate_sub_project get_sub_project find? review_request get_request
    submit_request strip get_phase promote_phase can_operate_phase procurement_selected
    required_documents_for_phase incomplete_phase_nos ensure_acceptance_steps_completed steps_apply
    ensure_required_documents_uploaded missing_from documents_to_check list_required_doc_templates
    sort_by filter notify_promoted send complete_phase all phases_in activate_next_phase put
    insert_by ensure_phase_can_be_revoked get_pending_request_by_phase new_request review_decision
    record_review apply_approval
main_keys = refl

paid_keys :
    all (λ p. any (λ s. s.id == p.sub_project_id) agreed.0.sub_projects) agreed.0.payments ≡ true
unfolding all review_request get_request find? submit_request strip get_phase promote_phase
    get_sub_project can_operate_phase procurement_selected required_documents_for_phase
    incomplete_phase_nos ensure_acceptance_steps_completed steps_apply
    ensure_required_documents_uploaded missing_from documents_to_check list_required_doc_templates
    sort_by filter notify_promoted send complete_phase phases_in activate_next_phase put insert_by
    ensure_phase_can_be_revoked get_pending_request_by_phase new_request review_decision
    record_review apply_approval
paid_keys = refl

request_keys :
    all (λ r. any (λ p. p.id == r.phase_id) agreed.0.phases) agreed.0.revoke_requests ≡ true
unfolding all review_request get_request find? submit_request strip get_phase promote_phase
    get_sub_project can_operate_phase procurement_selected required_documents_for_phase
    incomplete_phase_nos ensure_acceptance_steps_completed steps_apply
    ensure_required_documents_uploaded missing_from documents_to_check list_required_doc_templates
    sort_by filter notify_promoted send complete_phase phases_in activate_next_phase put insert_by
    ensure_phase_can_be_revoked get_pending_request_by_phase new_request review_decision
    record_review apply_approval any
request_keys = refl

scope_keys :
    all (λ s. any (λ m. m.id == s.main_project_id) agreed.0.main_projects) agreed.0.sub_projects
    ≡ true
unfolding all review_request get_request find? submit_request strip get_phase promote_phase
    get_sub_project can_operate_phase procurement_selected required_documents_for_phase
    incomplete_phase_nos ensure_acceptance_steps_completed steps_apply
    ensure_required_documents_uploaded missing_from documents_to_check list_required_doc_templates
    sort_by filter notify_promoted send complete_phase phases_in activate_next_phase put insert_by
    ensure_phase_can_be_revoked get_pending_request_by_phase new_request review_decision
    record_review apply_approval any
scope_keys = refl

keyed : IsKeyed agreed.0 ended_early.0
keyed = record {
  sub_projects = sub_keys;
  phases = phase_keys;
  main_projects = main_keys;
  paid_for = paid_keys;
  requested = request_keys;
  scoped = scope_keys;
}

history : db ⟶* ended_early.0
history =
    and_then
      (and_then
        (and_then (and_then stay (promotes env leader 11 promotes1))
          (submits env leader payload submits1))
        (reviews env boss 1000 approve none agrees))
      (manages keyed (terminates env boss 9 terminates1))

reachable-IsConsistent_example : IsConsistent ended_early.0
reachable-IsConsistent_example = reachable-IsConsistent history db-IsConsistent

reachable-IsLater_example : IsLater db ended_early.0
reachable-IsLater_example = reachable-IsLater history
