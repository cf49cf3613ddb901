-- ===== src/Phases/Guards.antt =====
-- The checks that `PhaseService.promote_phase` makes before it changes anything
-- (backend/app/services/phases.py).
use project_lifecycle_manage.Base.{
  ℕ, zero, suc, ◌==◌, Bool, true, false, not, ◌&&◌, ◌||◌, Option, none, some, List, [], ◌∷◌, ◌++◌,
  is_some, text_eq, if◌then◌else◌, find_last?, filter, count, map,
}
use project_lifecycle_manage.Model.{
  Db, User, SubProject, Phase, PhaseDocTemplate, PaymentVoucherCoverage, Document, AcceptanceStep,
  is_admin, is_dept_manager, is_finance_manager, is_proj_leader, is_completed, is_completed_step,
}
use project_lifecycle_manage.Errors.{
  Result, ok, MissingDocument, permission_denied, business, previous_incomplete, missing_documents,
  steps_incomplete, procurement_type_missing, guard, guard_empty, ◌>>=◌, ◌>>◌,
}
use project_lifecycle_manage.Queries.{get_member}
use project_lifecycle_manage.Phases.Rules.{judged_by, required_document_is_satisfied}

-- Every role may view: the first test of `_ensure_visible` passes for all of them.
unfoldable pub can_operate_phase : User → SubProject → Db → Bool
can_operate_phase actor sub_project db =
    (is_admin actor.role || (is_dept_manager actor.role || is_finance_manager actor.role))
    || ((is_proj_leader actor.role && sub_project.manager_id == actor.id)
        || is_some (get_member sub_project.id actor.id db))

abbrev pub ensure_can_operate_phase : User → SubProject → Db → Result (Unit {0})
ensure_can_operate_phase actor sub_project db =
    guard (can_operate_phase actor sub_project db) permission_denied

-- `range(1, n)`
unfoldable pub numbers_below : ℕ → List ℕ
numbers_below zero = []
numbers_below (suc n) = let before = numbers_below n in if n == 0 then [] else before ++ n ∷ []

abbrev is_done : Option Phase → Bool
is_done none = false
is_done (some p) = is_completed p.status

-- `phases_by_no.get(n)` is a completed phase.
unfoldable pub completed_at : List Phase → ℕ → Bool
completed_at phases n = is_done (find_last? (λ p. p.phase_no == n) phases)

-- `phase_no in {2, 3, 4}`
abbrev pub is_sequential : ℕ → Bool
is_sequential n = n == 2 || (n == 3 || n == 4)

unfoldable pub incomplete_phase_nos : Phase → List Phase → List ℕ
incomplete_phase_nos phase phases =
    if is_sequential phase.phase_no
    then filter (λ n. not (completed_at phases n)) (numbers_below phase.phase_no)
    else []

abbrev pub ensure_phase_dependencies_completed : Phase → List Phase → Result (Unit {0})
ensure_phase_dependencies_completed phase phases =
    guard_empty (incomplete_phase_nos phase phases)
      (λ nos. business (previous_incomplete phase.status nos))

-- `uploaded_counts.get(doc_type, 0)`
unfoldable pub uploaded_count : List Document → PhaseDocTemplate → ℕ
uploaded_count uploaded template = count (λ d. text_eq d.doc_type template.doc_type) uploaded

unfoldable pub missing_entry :
    PhaseDocTemplate → List Document → Option PaymentVoucherCoverage → MissingDocument
missing_entry template uploaded coverage = record {
  doc_type = template.doc_type;
  required = template.qty_rule;
  actual = elim (judged_by template coverage) [
    | none ↦ uploaded_count uploaded template
    | some c ↦ c.covered_payment_count
  ];
  extra = judged_by template coverage;
}

-- The comprehension that builds `missing`; a rule that is no number raises inside it.
unfoldable pub missing_from :
    List PhaseDocTemplate
    → List Document
    → Option PaymentVoucherCoverage
    → Result (List MissingDocument)
missing_from [] uploaded coverage = ok []
missing_from (t ∷ ts) uploaded coverage = do
  satisfied ← required_document_is_satisfied t (uploaded_count uploaded t) coverage
  rest ← missing_from ts uploaded coverage
  if satisfied then ok rest else ok (missing_entry t uploaded coverage ∷ rest)

unfoldable pub ensure_required_documents_uploaded :
    List PhaseDocTemplate → List Document → Option PaymentVoucherCoverage → Result (Unit {0})
ensure_required_documents_uploaded required uploaded coverage = do
  missing ← missing_from required uploaded coverage
  guard_empty missing (λ docs. business (missing_documents docs))

abbrev no_steps : List AcceptanceStep → Bool
no_steps [] = true
no_steps (s ∷ ss) = false

-- The steps count for phase 4 alone, and only where there are some.
unfoldable pub steps_apply : Phase → List AcceptanceStep → Bool
steps_apply phase steps = phase.phase_no == 4 && not (no_steps steps)

-- The answer says whether the acceptance reports are covered by the steps.
unfoldable pub ensure_acceptance_steps_completed : Phase → List AcceptanceStep → Result Bool
ensure_acceptance_steps_completed phase steps =
    if steps_apply phase steps
    then (do
      guard_empty (filter (λ s. not (is_completed_step s.status)) steps)
          (λ open_steps. business (steps_incomplete (map (λ s. s.step_no) open_steps)))
      ok true)
    else ok false

unfoldable pub procurement_selected : Phase → Bool
procurement_selected phase = not (phase.phase_no == 2) || is_some phase.procurement_type

abbrev pub ensure_procurement_type_selected : Phase → Result (Unit {0})
ensure_procurement_type_selected phase =
    guard (procurement_selected phase) (business procurement_type_missing)
