-- ===== src/Phases/Promotion.antt =====
-- What `PhaseService.promote_phase` of backend/app/services/phases.py demands, in both directions.
use project_lifecycle_manage.Base.{
  ℕ, zero, suc, ◌≤◌, ◌<◌, Bool, true, ◌≡◌, refl, sym, Option, some, List, [], ◌∷◌, all, arith,
  Bool-cases, inl, inr, all-filter-not, filter-not-all, all-append,
}
use project_lifecycle_manage.Model.{
  Db, Env, User, Document, PaymentVoucherCoverage, SubProject, Phase, PhaseDocTemplate,
  AcceptanceStep, is_in_progress, is_completed_step,
}
use project_lifecycle_manage.Errors.{
  ok, returns_true, >>=-eq-ok, ok-injective, guard->>-eq-ok, guard_empty->>-eq-ok,
  from_option->>=-eq-ok,
}
use project_lifecycle_manage.Queries.{
  get_phase, get_sub_project, list_phases, list_latest_documents,
}
use project_lifecycle_manage.Phases.Rules.{
  required_documents_for_phase, payment_voucher_coverage_for_phase, required_document_is_satisfied,
}
use project_lifecycle_manage.Phases.Guards.{
  can_operate_phase, procurement_selected, numbers_below, completed_at, is_sequential,
  incomplete_phase_nos, uploaded_count, missing_from, ensure_required_documents_uploaded,
  steps_apply, ensure_acceptance_steps_completed,
}
use project_lifecycle_manage.Phases.Service.{
  PhasePromotionResult, list_acceptance_steps, documents_to_check, complete_phase, notify_promoted,
  promote_phase,
}

-- Everything that was fetched and every check that passed.
pub record IsGranted (env : Env) (actor : User) (phase_id : ℕ) (db : Db) : Type 0 where
  pub phase : Phase
  pub sub_project : SubProject
  pub required : List PhaseDocTemplate
  pub covered : Bool
  pub found : get_phase phase_id db ≡ some phase
  pub scope : get_sub_project phase.sub_project_id db ≡ some sub_project
  pub operator : can_operate_phase actor sub_project db ≡ true
  pub running : is_in_progress phase.status ≡ true
  pub procured : procurement_selected phase ≡ true
  pub templates : required_documents_for_phase env phase db ≡ ok required
  pub ordered : incomplete_phase_nos phase (list_phases sub_project.id db) ≡ []
  pub steps :
      ensure_acceptance_steps_completed phase (list_acceptance_steps phase.id db) ≡ ok covered
  pub uploaded :
      ensure_required_documents_uploaded
        (documents_to_check covered required)
        (list_latest_documents phase.id db)
        (payment_voucher_coverage_for_phase phase db)
      ≡ ok tt

abbrev pub outcome :
    (env : Env) (actor : User) (phase_id : ℕ) (db : Db)
    → IsGranted env actor phase_id db
    → PhasePromotionResult
outcome env actor phase_id db g =
    notify_promoted g.sub_project (complete_phase env actor g.phase g.sub_project db)

-- A promotion that returns has passed every check, and returns the outcome.
pub promote_phase-IsGranted :
    (env : Env) (actor : User) (phase_id : ℕ) (db : Db) {r : PhasePromotionResult}
    → promote_phase env actor phase_id db ≡ ok r
    → (g : IsGranted env actor phase_id db) × (r ≡ outcome env actor phase_id db g)
unfolding promote_phase
promote_phase-IsGranted env actor phase_id db h =
    let (phase, found, h1) = from_option->>=-eq-ok (get_phase phase_id db) _ _ h in
    let (sub, scope, h2) = from_option->>=-eq-ok (get_sub_project phase.sub_project_id db) _ _ h1 in
    let (operator, h3) = guard->>-eq-ok _ _ _ h2 in
    let (running, h4) = guard->>-eq-ok _ _ _ h3 in
    let (procured, h5) = guard->>-eq-ok _ _ _ h4 in
    let (required, templates, h6) = >>=-eq-ok (required_documents_for_phase env phase db) _ h5 in
    let (ordered, h7) = guard_empty->>-eq-ok _ _ _ h6 in
    let (covered, steps, h8) =
      >>=-eq-ok (ensure_acceptance_steps_completed phase (list_acceptance_steps phase.id db)) _
        h7 in
    let (done, uploaded, h9) = >>=-eq-ok _ _ h8 in
    (
      record {
        phase = phase;
        sub_project = sub;
        required = required;
        covered = covered;
        found = found;
        scope = scope;
        operator = operator;
        running = running;
        procured = procured;
        templates = templates;
        ordered = ordered;
        steps = steps;
        uploaded = uploaded;
      },
      sym (ok-injective h9),
    )

-- The numbers that `range(1, n)` holds.
numbers_below-all :
    (q : ℕ → Bool) (m n : ℕ) → all q (numbers_below m) ≡ true → 1 ≤ n → n < m → q n ≡ true
unfolding numbers_below all
numbers_below-all q zero n h low high = absurd (omega arith)
numbers_below-all q (suc m) n h low high =
    ground (arith, all-append q (numbers_below m) (m ∷ []), numbers_below-all q m n)

all-numbers_below :
    (q : ℕ → Bool) (m : ℕ) → ((n : ℕ) → 1 ≤ n → n < m → q n ≡ true) → all q (numbers_below m) ≡ true
unfolding numbers_below all
all-numbers_below q zero h = refl
all-numbers_below q (suc m) h = ground (
  arith,
  all-append q (numbers_below m) (m ∷ []),
  h m,
  all-numbers_below q m (λ n low high. h n low (omega arith)),
)

pub dependencies :
    (phase : Phase) (phases : List Phase)
    → incomplete_phase_nos phase phases ≡ []
    → is_sequential phase.phase_no ≡ true
    → (n : ℕ) → 1 ≤ n
    → n < phase.phase_no
    → completed_at phases n ≡ true
unfolding incomplete_phase_nos
dependencies phase phases h seq n low high =
    numbers_below-all (completed_at phases) phase.phase_no n
      (all-filter-not (completed_at phases) (numbers_below phase.phase_no) (rw seq at h)) low high

pub dependencies-eq-nil :
    (phase : Phase) (phases : List Phase)
    → (is_sequential phase.phase_no ≡ true
        → (n : ℕ) → 1 ≤ n
        → n < phase.phase_no
        → completed_at phases n ≡ true)
    → incomplete_phase_nos phase phases ≡ []
unfolding incomplete_phase_nos
dependencies-eq-nil phase phases h = elim (Bool-cases (is_sequential phase.phase_no)) [
  | inl seq ↦ rw seq (
      filter-not-all (completed_at phases) (numbers_below phase.phase_no)
        (all-numbers_below (completed_at phases) phase.phase_no (h seq)))
  | inr other ↦ rw other
]

pub steps_completed :
    (phase : Phase) (steps : List AcceptanceStep) {covered : Bool}
    → ensure_acceptance_steps_completed phase steps ≡ ok covered
    → (covered ≡ steps_apply phase steps)
      × (steps_apply phase steps ≡ true → all (λ s. is_completed_step s.status) steps ≡ true)
unfolding ensure_acceptance_steps_completed
steps_completed phase steps h = elim (Bool-cases (steps_apply phase steps)) [
  | inl y ↦
      let (none_open, e) = guard_empty->>-eq-ok _ _ _ (rw y at h) in
      (
        rw y (sym (ok-injective e)),
        λ _. all-filter-not (λ s. is_completed_step s.status) steps none_open,
      )
  | inr n ↦ (rw n (sym (ok-injective (rw n at h))), λ y. ground (arith, n))
]

pub missing_from-satisfied :
    (ts : List PhaseDocTemplate) (up : List Document) (cov : Option PaymentVoucherCoverage)
    → missing_from ts up cov ≡ ok []
    → all (λ t. returns_true (required_document_is_satisfied t (uploaded_count up t) cov)) ts ≡ true
unfolding missing_from all
missing_from-satisfied [] up cov h = refl
missing_from-satisfied (t ∷ ts) up cov h = ground (arith, missing_from-satisfied ts up cov)

pub satisfied-missing_from :
    (ts : List PhaseDocTemplate) (up : List Document) (cov : Option PaymentVoucherCoverage)
    → all (λ t. returns_true (required_document_is_satisfied t (uploaded_count up t) cov)) ts ≡ true
    → missing_from ts up cov ≡ ok []
unfolding missing_from all
satisfied-missing_from [] up cov h = refl
satisfied-missing_from (t ∷ ts) up cov h = ground (arith, satisfied-missing_from ts up cov)

pub completed-steps :
    (phase : Phase) (steps : List AcceptanceStep)
    → (steps_apply phase steps ≡ true → all (λ s. is_completed_step s.status) steps ≡ true)
    → ensure_acceptance_steps_completed phase steps ≡ ok (steps_apply phase steps)
unfolding ensure_acceptance_steps_completed
completed-steps phase steps h = elim (Bool-cases (steps_apply phase steps)) [
  | inl y ↦ rw (y, filter-not-all (λ s. is_completed_step s.status) steps (h y))
  | inr n ↦ rw n
]
