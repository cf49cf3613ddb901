-- ===== src/Phases/Demands.antt =====
-- `PhaseService.promote_phase` of backend/app/services/phases.py returns exactly where its demands
-- are met.
use project_lifecycle_manage.Base.{
  ℕ, ◌≤◌, ◌<◌, true, ◌≡◌, refl, ap, ◌∙◌, Option, some, List, all, is_some, arith,
}
use project_lifecycle_manage.Model.{
  Db, Env, User, SubProject, Phase, PhaseStatus, PhaseDocTemplate, Document, PaymentVoucherCoverage,
  is_in_progress, is_completed_step,
}
use project_lifecycle_manage.Errors.{ok, returns_true, guard_empty-eq-ok, >>=-eq-ok}
use project_lifecycle_manage.Queries.{
  get_phase, get_sub_project, list_phases, list_latest_documents,
}
use project_lifecycle_manage.Phases.Rules.{
  required_documents_for_phase, payment_voucher_coverage_for_phase, required_document_is_satisfied,
}
use project_lifecycle_manage.Phases.Guards.{
  can_operate_phase, procurement_selected, completed_at, is_sequential, uploaded_count,
  missing_from, ensure_required_documents_uploaded, steps_apply,
}
use project_lifecycle_manage.Phases.Service.{
  PhasePromotionResult, list_acceptance_steps, documents_to_check, complete_phase, notify_promoted,
  promote_phase,
}
use project_lifecycle_manage.Phases.Promotion.{
  IsGranted, outcome, promote_phase-IsGranted, dependencies, dependencies-eq-nil, steps_completed,
  completed-steps, missing_from-satisfied, satisfied-missing_from,
}

-- Every template is satisfied by the documents and the vouchers.
abbrev pub AllSatisfied :
    List PhaseDocTemplate → List Document → Option PaymentVoucherCoverage → Type 0
AllSatisfied ts uploaded coverage =
    all (λ t. returns_true (required_document_is_satisfied t (uploaded_count uploaded t) coverage))
      ts
    ≡ true

pub record IsDemanded (env : Env) (actor : User) (phase_id : ℕ) (db : Db) : Type 0 where
  pub phase : Phase
  pub sub_project : SubProject
  pub required : List PhaseDocTemplate
  pub found : get_phase phase_id db ≡ some phase
  pub scope : get_sub_project phase.sub_project_id db ≡ some sub_project
  pub operator : can_operate_phase actor sub_project db ≡ true
  pub running : phase.status ≡ PhaseStatus.in_progress
  pub procured : phase.phase_no ≡ 2 → is_some phase.procurement_type ≡ true
  pub templates : required_documents_for_phase env phase db ≡ ok required
  pub ordered :
      is_sequential phase.phase_no ≡ true
      → (n : ℕ) → 1 ≤ n
      → n < phase.phase_no
      → completed_at (list_phases sub_project.id db) n ≡ true
  pub steps :
      steps_apply phase (list_acceptance_steps phase.id db) ≡ true
      → all (λ s. is_completed_step s.status) (list_acceptance_steps phase.id db) ≡ true
  pub uploaded :
      AllSatisfied
        (documents_to_check (steps_apply phase (list_acceptance_steps phase.id db)) required)
        (list_latest_documents phase.id db)
        (payment_voucher_coverage_for_phase phase db)

abbrev pub promotion :
    (env : Env) (actor : User) (phase_id : ℕ) (db : Db)
    → IsDemanded env actor phase_id db
    → PhasePromotionResult
promotion env actor phase_id db d =
    notify_promoted d.sub_project (complete_phase env actor d.phase d.sub_project db)

running-eq : (s : PhaseStatus) → is_in_progress s ≡ true → s ≡ PhaseStatus.in_progress
running-eq s h = ground arith

procured-is_some :
    (phase : Phase)
    → procurement_selected phase ≡ true
    → phase.phase_no ≡ 2
    → is_some phase.procurement_type ≡ true
unfolding procurement_selected
procured-is_some phase h two = ground arith

is_some-procured :
    (phase : Phase)
    → (phase.phase_no ≡ 2 → is_some phase.procurement_type ≡ true)
    → procurement_selected phase ≡ true
unfolding procurement_selected
is_some-procured phase h = ground arith

uploaded-AllSatisfied :
    (ts : List PhaseDocTemplate) (up : List Document) (cov : Option PaymentVoucherCoverage)
    → ensure_required_documents_uploaded ts up cov ≡ ok tt
    → AllSatisfied ts up cov
unfolding ensure_required_documents_uploaded
uploaded-AllSatisfied ts up cov h =
    let (missing, e, nothing) = >>=-eq-ok (missing_from ts up cov) _ h in
    missing_from-satisfied ts up cov (e ∙ ap ok (guard_empty-eq-ok missing _ nothing))

AllSatisfied-uploaded :
    (ts : List PhaseDocTemplate) (up : List Document) (cov : Option PaymentVoucherCoverage)
    → AllSatisfied ts up cov
    → ensure_required_documents_uploaded ts up cov ≡ ok tt
unfolding ensure_required_documents_uploaded
AllSatisfied-uploaded ts up cov h = rw (satisfied-missing_from ts up cov h)

IsGranted-IsDemanded :
    {env : Env} {actor : User} {phase_id : ℕ} {db : Db}
    → (g : IsGranted env actor phase_id db)
    → (d : IsDemanded env actor phase_id db) × (outcome env actor phase_id db g
        ≡ promotion env actor phase_id db d)
IsGranted-IsDemanded {db = db} g =
    let (covered, completed) =
      steps_completed g.phase (list_acceptance_steps g.phase.id db) g.steps in
    (
      record {
        phase = g.phase;
        sub_project = g.sub_project;
        required = g.required;
        found = g.found;
        scope = g.scope;
        operator = g.operator;
        running = running-eq g.phase.status g.running;
        procured = procured-is_some g.phase g.procured;
        templates = g.templates;
        ordered = dependencies g.phase (list_phases g.sub_project.id db) g.ordered;
        steps = completed;
        uploaded = rw (← covered) (uploaded-AllSatisfied _ _ _ g.uploaded);
      },
      refl,
    )

-- A promotion that returns a result has met every demand, and its result is the promotion of the
-- phase that was asked for: the phase and its sub project exist, the actor may operate it, it is in
-- progress, a procurement phase has its type, the phases before a phase 2, 3 or 4 are completed, the
-- acceptance steps of a phase 4 are completed, and every required document is there, where the
-- acceptance report is not asked for again after such steps.
pub promote_phase_demands :
    (env : Env) (actor : User) (phase_id : ℕ) (db : Db) {r : PhasePromotionResult}
    → promote_phase env actor phase_id db ≡ ok r
    → (d : IsDemanded env actor phase_id db) × (r ≡ promotion env actor phase_id db d)
promote_phase_demands env actor phase_id db h =
    let (g, e) = promote_phase-IsGranted env actor phase_id db h in
    let (d, same) = IsGranted-IsDemanded g in (d, e ∙ same)

-- Where every demand is met, the promotion returns its result: no other test stands in the way.
pub promote_phase_returns :
    (env : Env) (actor : User) (phase_id : ℕ) (db : Db) (d : IsDemanded env actor phase_id db)
    → promote_phase env actor phase_id db ≡ ok (promotion env actor phase_id db d)
unfolding promote_phase
promote_phase_returns env actor phase_id db d =
    let running : is_in_progress d.phase.status ≡ true = ap is_in_progress d.running in
    rw (
      d.found,
      d.scope,
      d.operator,
      running,
      is_some-procured d.phase d.procured,
      d.templates,
      dependencies-eq-nil d.phase (list_phases d.sub_project.id db) d.ordered,
      completed-steps d.phase (list_acceptance_steps d.phase.id db) d.steps,
      AllSatisfied-uploaded _ _ _ d.uploaded,
    )
