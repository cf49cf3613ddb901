-- ===== src/SubProjects/Review.antt =====
-- `review_sub_project` of `SubProjectService` in backend/app/services/sub_projects.py, with the phases
-- that an approval creates and the constraints of backend/app/models/phases.py on them.
use project_lifecycle_manage.Base.{
  ℕ, ◌==◌, leb, suc, ℤ, ◌+ℤ◌, ◌-ℤ◌, leb_ℤ, Text, codes, Bool, true, false, not, ◌&&◌, ◌||◌, Option,
  none, some, List, [], ◌∷◌, ◌++◌, all, any, distinct, length, sort_by, if◌then◌else◌,
}
use project_lifecycle_manage.Model.{
  Db, Env, User, SubProject, SubProjectStatus, MainProject, MainProjectStatus, Phase, PhaseStatus,
  PhaseDefinition, WorkflowTemplateVersion, ProjectReview, ProjectReviewDecision,
  is_approved_project, is_pending_project, is_admin, is_dept_manager,
}
use project_lifecycle_manage.Errors.{
  Result, ok, permission_denied, integrity_error, business, sub_project_status, over_allocated,
  guard, ◌>>=◌, ◌>>◌,
}
use project_lifecycle_manage.Queries.{
  existing_main_project, existing_sub_project, save_sub_project, save_main_project, notify,
  record_audit, is_user,
}
use project_lifecycle_manage.Payments.Service.{sum_by}
use project_lifecycle_manage.SubProjects.Creation.{get_workflow_template_version}

-- `updates` is left out: the service does not read it.
pub record SubProjectReviewRequest : Type 0 where
  pub decision : ProjectReviewDecision
  pub review_comment : Option Text
  pub confirm_over_budget : Bool
  pub over_budget_reason : Option Text

-- The rows that `sum_approved_budget` adds up.
abbrev pub is_allocated : ℕ → ℕ → SubProject → Bool
is_allocated main_id excluded s =
    s.main_project_id == main_id && (not (s.id == excluded) && is_approved_project s.status)

unfoldable pub sum_approved_budget : ℕ → ℕ → List SubProject → ℤ
sum_approved_budget main_id excluded ss = sum_by (is_allocated main_id excluded) (λ s. s.budget) ss

-- A reason counts unless it is null or empty.
abbrev pub is_reason : Option Text → Bool
is_reason none = false
is_reason (some []) = false
is_reason (some (c ∷ t)) = true

abbrev pub is_confirmed : SubProjectReviewRequest → Bool
is_confirmed payload = payload.confirm_over_budget && is_reason payload.over_budget_reason

-- The checks of `_validate_over_budget` on an approval.
abbrev pub over_budget_check :
    MainProject → SubProject → SubProjectReviewRequest → ℤ → Result (Unit {0})
over_budget_check main s payload current =
    guard (leb_ℤ (current +ℤ s.budget) main.total_budget || is_confirmed payload) (
      business (
        over_allocated main.total_budget current s.budget
          ((current +ℤ s.budget) -ℤ main.total_budget)))

unfoldable pub validate_over_budget :
    MainProject
    → SubProject
    → SubProjectReviewRequest
    → ProjectReviewDecision
    → Db
    → Result (Unit {0})
validate_over_budget main s payload ProjectReviewDecision.reject db = ok tt
validate_over_budget main s payload ProjectReviewDecision.approve db =
    over_budget_check main s payload (sum_approved_budget main.id s.id db.sub_projects)

-- `phase_no in {1, 5, 6}`
abbrev pub starts_open : ℕ → Bool
starts_open n = n == 1 || (n == 5 || n == 6)

unfoldable pub new_phase : Env → ℕ → ℕ → PhaseDefinition → Phase
new_phase env draw s definition = record {
  id = env.uuid draw;
  sub_project_id = s;
  phase_no = definition.order;
  code = definition.key;
  name = definition.name;
  status = if starts_open definition.order then PhaseStatus.in_progress else PhaseStatus.waiting;
  enter_at = if starts_open definition.order then some env.now else none;
  finish_at = none;
  procurement_type = none;
  created_at = env.now;
  updated_at = env.now;
}

-- The loop over the definitions, the first of which takes the draw `n`.
unfoldable pub phases_from : Env → ℕ → ℕ → List PhaseDefinition → List Phase
unfolding new_phase
phases_from env n s [] = []
phases_from env n s (d ∷ ds) = new_phase env n s d ∷ phases_from env (suc n) s ds

abbrev default_phase : ℕ → Text → Text → PhaseDefinition
default_phase n key name = record { order = n; key = key; name = name; required_documents = [] }

-- DEFAULT_PHASES
abbrev pub default_phases : List PhaseDefinition
default_phases =
    default_phase 1 (codes "initiation") (codes "立项")
    ∷ default_phase 2 (codes "procurement") (codes "采购")
    ∷ default_phase 3 (codes "contract") (codes "合同")
    ∷ default_phase 4 (codes "acceptance") (codes "验收")
    ∷ default_phase 5 (codes "payment") (codes "付款")
    ∷ default_phase 6 (codes "post_review") (codes "后评价")
    ∷ []

unfoldable pub by_order : List PhaseDefinition → List PhaseDefinition
by_order ds = sort_by (λ a b. leb a.order b.order) ds

abbrev pub defined_or_default : List PhaseDefinition → List PhaseDefinition
defined_or_default [] = default_phases
defined_or_default (d ∷ ds) = by_order (d ∷ ds)

abbrev pub definitions_of : Option WorkflowTemplateVersion → List PhaseDefinition
definitions_of none = default_phases
definitions_of (some v) = defined_or_default v.phase_definitions

abbrev pub version_definitions : Option ℕ → Db → List PhaseDefinition
version_definitions none db = default_phases
version_definitions (some i) db = definitions_of (get_workflow_template_version i db)

-- The definitions that `_create_phases_for_sub_project` goes through.
unfoldable pub phase_definitions_for : SubProject → Db → List PhaseDefinition
phase_definitions_for s db = version_definitions s.workflow_template_version_id db

unfoldable pub created_phases : Env → SubProject → Db → List Phase
unfolding phase_definitions_for
created_phases env s db = phases_from env 0 s.id (phase_definitions_for s db)

-- ck_phases_phase_no_range and uq_phases_sub_project_phase_no, for the rows that are inserted.
unfoldable pub phases_fit : List Phase → List Phase → Bool
phases_fit stored created =
    all (λ p. leb 1 p.phase_no && leb p.phase_no 6) created
    && (distinct (λ p. p.phase_no) created
        && all
            (λ p.
              not (
                any (λ q. q.sub_project_id == p.sub_project_id && q.phase_no == p.phase_no) stored))
            created)

abbrev pub with_sub_status : Env → SubProjectStatus → SubProject → SubProject
with_sub_status env status s = record s { status = status; updated_at = env.now }

-- Only a main project that has not started changes.
abbrev pub begun_status : MainProjectStatus → MainProjectStatus
begun_status MainProjectStatus.not_started = MainProjectStatus.in_progress
begun_status status = status

abbrev pub is_not_started : MainProjectStatus → Bool
is_not_started MainProjectStatus.not_started = true
is_not_started _ = false

abbrev pub begun_main : Env → MainProject → MainProject
begun_main env m = record m {
  status = begun_status m.status;
  updated_at = if is_not_started m.status then env.now else m.updated_at;
}

abbrev reviewed_status : ProjectReviewDecision → MainProjectStatus
reviewed_status ProjectReviewDecision.approve = MainProjectStatus.in_progress
reviewed_status ProjectReviewDecision.reject = MainProjectStatus.rejected

unfoldable pub sub_project_review :
    Env → ℕ → User → SubProject → SubProjectReviewRequest → ProjectReview
sub_project_review env draw actor s payload = record {
  id = env.uuid draw;
  main_project_id = none;
  sub_project_id = some s.id;
  reviewer_id = actor.id;
  decision = payload.decision;
  from_status = MainProjectStatus.pending_review;
  to_status = reviewed_status payload.decision;
  review_comment = payload.review_comment;
  modified_fields = [];
  admin_override = is_admin actor.role;
  reviewed_at = env.now;
}

abbrev pub approve_sub_project :
    Env → User → SubProject → MainProject → SubProjectReviewRequest → Db → Db
approve_sub_project env actor s main payload db = record db {
  sub_projects =
      save_sub_project (with_sub_status env SubProjectStatus.in_progress s) db.sub_projects;
  main_projects = save_main_project (begun_main env main) db.main_projects;
  phases = db.phases ++ created_phases env s db;
  project_reviews =
      db.project_reviews
      ++ sub_project_review env (length (created_phases env s db)) actor s payload ∷ [];
}

abbrev pub reject_sub_project : Env → User → SubProject → SubProjectReviewRequest → Db → Db
reject_sub_project env actor s payload db = record db {
  sub_projects = save_sub_project (with_sub_status env SubProjectStatus.rejected s) db.sub_projects;
  project_reviews = db.project_reviews ++ sub_project_review env 0 actor s payload ∷ [];
}

abbrev pub decide_review :
    Env
    → User
    → SubProject
    → MainProject
    → SubProjectReviewRequest
    → ProjectReviewDecision
    → Db
    → Result (Db × SubProject)
decide_review env actor s main payload ProjectReviewDecision.approve db =
    guard (phases_fit db.phases (created_phases env s db)) integrity_error
    >> ok (
      approve_sub_project env actor s main payload db,
      with_sub_status env SubProjectStatus.in_progress s,
    )
decide_review env actor s main payload ProjectReviewDecision.reject db =
    ok (reject_sub_project env actor s payload db, with_sub_status env SubProjectStatus.rejected s)

abbrev pub announce_review : User → SubProject → Db → Db
announce_review actor s db =
    record_audit actor (codes "sub_project.review") (codes "sub_project") s.id
      (notify (codes "project_review_result") (s.manager_id ∷ []) s.id db)

unfoldable pub review_sub_project :
    Env → User → ℕ → SubProjectReviewRequest → Db → Result (Db × SubProject)
review_sub_project env actor i payload db = do
  guard (is_admin actor.role || is_dept_manager actor.role) permission_denied
  s ← existing_sub_project i db
  guard (not (is_user s.creator_id actor.id)) permission_denied
  guard (is_pending_project s.status) (business (sub_project_status s.status))
  main ← existing_main_project s.main_project_id db
  validate_over_budget main s payload payload.decision db
  reviewed ← decide_review env actor s main payload payload.decision db
  ok (announce_review actor reviewed.1 reviewed.0, reviewed.1)
