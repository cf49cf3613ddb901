-- ===== src/SubProjects/Approval.antt =====
-- What an approval by `review_sub_project` of backend/app/services/sub_projects.py starts: the sub
-- project, its main project and its phases.
use project_lifecycle_manage.Base.{
  ℕ, suc, ◌==◌, ==_iff, ==_refl, leb, Bool, true, false, not, ◌&&◌, Option, none, some, List, [],
  ◌∷◌, ◌++◌, map, ◌≡◌, ◌≢◌, ◌||◌, refl, sym, ap, subst, ◌∙◌, arith, find?, find?-put, find?-sound,
  put, all, distinct, length, count, is_some, &&-eq-true, Bool-cases, inl, inr, if◌then◌else◌,
}
use project_lifecycle_manage.Model.{
  Db, Env, User, SubProject, SubProjectStatus, MainProject, MainProjectStatus, Phase,
  PhaseDefinition, ProjectReviewDecision, WorkflowTemplateVersion, is_in_progress, is_waiting,
}
use project_lifecycle_manage.Errors.{ok}
use project_lifecycle_manage.Queries.{get_sub_project, get_main_project}
use project_lifecycle_manage.SubProjects.Review.{
  SubProjectReviewRequest, review_sub_project, with_sub_status, begun_main, begun_status,
  is_not_started, created_phases, phases_from, phase_definitions_for, phases_fit, new_phase,
  starts_open, decide_review, announce_review,
}
use project_lifecycle_manage.SubProjects.Creation.{get_workflow_template_version}
use project_lifecycle_manage.SubProjects.Definitions.{
  ascending, versioned_definitions, ascending_definitions, ascending-phases_from,
}
use project_lifecycle_manage.SubProjects.Closing.{phase_count}
use project_lifecycle_manage.SubProjects.Effects.{
  review_sub_project-IsReviewed, decide_review-approve,
}

-- Phases 1, 5 and 6 are in progress and entered at `t`, the others wait; none is finished.
abbrev entered_at : Option ℕ → ℕ → Bool
entered_at none t = false
entered_at (some u) t = u == t

unfoldable pub is_opened : ℕ → ℕ → Phase → Bool
is_opened s t p =
    p.sub_project_id == s
    && ((if p.phase_no == 1 || (p.phase_no == 5 || p.phase_no == 6)
          then is_in_progress p.status && entered_at p.enter_at t
          else is_waiting p.status && not (is_some p.enter_at))
        && not (is_some p.finish_at))

new_phase-is_opened :
    (env : Env) (n s : ℕ) (d : PhaseDefinition) → is_opened s env.now (new_phase env n s d) ≡ true
unfolding is_opened new_phase
new_phase-is_opened env n s d = elim (Bool-cases (starts_open d.order)) [
  | inl e ↦ ground (arith, e, ==_refl s, ==_refl env.now)
  | inr e ↦ ground (arith, e, ==_refl s, ==_refl env.now)
]

phases_from-is_opened :
    (env : Env) (n s : ℕ) (ds : List PhaseDefinition)
    → all (is_opened s env.now) (phases_from env n s ds) ≡ true
unfolding all phases_from
phases_from-is_opened env n s [] = refl
phases_from-is_opened env n s (d ∷ ds) =
    ground (arith, new_phase-is_opened env n s d, phases_from-is_opened env (suc n) s ds)

phases_from_numbers :
    (env : Env) (n s : ℕ) (ds : List PhaseDefinition)
    → map (λ p. p.phase_no) (phases_from env n s ds) ≡ map (λ d. d.order) ds
unfolding phases_from new_phase
phases_from_numbers env n s [] = refl
phases_from_numbers env n s (d ∷ ds) = ap (λ t. d.order ∷ t) (phases_from_numbers env (suc n) s ds)

phases_from_codes :
    (env : Env) (n s : ℕ) (ds : List PhaseDefinition)
    → map (λ p. p.code) (phases_from env n s ds) ≡ map (λ d. d.key) ds
unfolding phases_from new_phase
phases_from_codes env n s [] = refl
phases_from_codes env n s (d ∷ ds) = ap (λ t. d.key ∷ t) (phases_from_codes env (suc n) s ds)

-- How many phases of the sub project there are then.
count-phases_from :
    (env : Env) (n s : ℕ) (ds : List PhaseDefinition)
    → count (λ p. p.sub_project_id == s) (phases_from env n s ds) ≡ length ds
unfolding count phases_from new_phase
count-phases_from env n s [] = refl
count-phases_from env n s (d ∷ ds) = rw (==_refl s) (ap suc (count-phases_from env (suc n) s ds))

count-append :
    {A : Type 0} (p : A → Bool) (xs ys : List A) → count p xs ≡ 0 → count p (xs ++ ys) ≡ count p ys
unfolding count
count-append p [] ys h = refl
count-append p (x ∷ xs) ys h = ground (arith, count-append p xs ys)

default_numbers :
    (env : Env) (s : SubProject) (db : Db)
    → s.workflow_template_version_id ≡ none
    → map (λ p. p.phase_no) (created_phases env s db) ≡ 1 ∷ 2 ∷ 3 ∷ 4 ∷ 5 ∷ 6 ∷ []
unfolding created_phases phase_definitions_for
default_numbers env s db e = phases_from_numbers env 0 s.id (phase_definitions_for s db) ∙ rw e refl

begun-started :
    (env : Env) (m : MainProject)
    → m.status ≡ MainProjectStatus.not_started
    → begun_main env m ≡ record m { status = MainProjectStatus.in_progress; updated_at = env.now }
begun-started env m h = rw h refl

begun_status-same :
    (s : MainProjectStatus)
    → s ≢ MainProjectStatus.not_started
    → (begun_status s ≡ s) × (is_not_started s ≡ false)
begun_status-same MainProjectStatus.not_started started = absurd (started refl)
begun_status-same MainProjectStatus.pending_review started = (refl, refl)
begun_status-same MainProjectStatus.reviewing started = (refl, refl)
begun_status-same MainProjectStatus.rejected started = (refl, refl)
begun_status-same MainProjectStatus.in_progress started = (refl, refl)
begun_status-same MainProjectStatus.completed started = (refl, refl)
begun_status-same MainProjectStatus.closed started = (refl, refl)

begun-running :
    (env : Env) (m : MainProject) → m.status ≢ MainProjectStatus.not_started → begun_main env m ≡ m
begun-running env m started =
    let (kept, off) = begun_status-same m.status started in rw (kept, off) refl

pub record IsApproved (env : Env) (actor : User) (i : ℕ) (db : Db) (r : Db × SubProject)
    : Type 0 where
  pub s : SubProject
  pub main : MainProject
  pub found : get_sub_project i db ≡ some s
  pub scope : get_main_project s.main_project_id db ≡ some main
  pub returned : r.1 ≡ record s { status = SubProjectStatus.in_progress; updated_at = env.now }
  pub stored : get_sub_project i r.0 ≡ some r.1
  pub begun :
      main.status ≡ MainProjectStatus.not_started
      → get_main_project s.main_project_id r.0
        ≡ some (record main { status = MainProjectStatus.in_progress; updated_at = env.now })
  pub running :
      main.status ≢ MainProjectStatus.not_started
      → get_main_project s.main_project_id r.0 ≡ some main
  pub phases : r.0.phases ≡ db.phases ++ created_phases env s db
  pub defaults :
      s.workflow_template_version_id ≡ none
      → map (λ p. p.phase_no) (created_phases env s db) ≡ 1 ∷ 2 ∷ 3 ∷ 4 ∷ 5 ∷ 6 ∷ []
  pub versioned :
      (j : ℕ) (v : WorkflowTemplateVersion)
      → s.workflow_template_version_id ≡ some j
      → get_workflow_template_version j db ≡ some v
      → v.phase_definitions ≢ []
      → (p : PhaseDefinition → Bool)
      → count p (phase_definitions_for s db) ≡ count p v.phase_definitions
  pub ordered : ascending (λ p. p.phase_no) (created_phases env s db) ≡ true
  pub codes :
      map (λ p. p.code) (created_phases env s db) ≡ map (λ d. d.key) (phase_definitions_for s db)
  pub opened : all (is_opened s.id env.now) (created_phases env s db) ≡ true
  pub numbers :
      map (λ p. p.phase_no) (created_phases env s db)
      ≡ map (λ d. d.order) (phase_definitions_for s db)
  pub range : all (λ p. leb 1 p.phase_no && leb p.phase_no 6) (created_phases env s db) ≡ true
  pub apart : distinct (λ p. p.phase_no) (created_phases env s db) ≡ true
  pub counted : phase_count s.id db ≡ 0 → phase_count s.id r.0 ≡ length (phase_definitions_for s db)

-- An approval that returns leaves the sub project as it was but in progress and updated now; its main
-- project likewise if it had not started, and else exactly as it was. It adds one phase for each
-- definition, with its number and code: those of the sub project's workflow version where that has any
-- (each as often as there), or the defaults 1 to 6 where it names none. The numbers ascend, are
-- distinct and between 1 and 6: the phases 1, 5 and 6 are in progress since now, the others wait. Where
-- the sub project had no phases, it then has as many as there are definitions.
pub review_sub_project-IsApproved :
    (env : Env) (actor : User) (i : ℕ) (payload : SubProjectReviewRequest) (db : Db)
    {r : Db × SubProject}
    → payload.decision ≡ ProjectReviewDecision.approve
    → review_sub_project env actor i payload db ≡ ok r
    → IsApproved env actor i db r
unfolding get_sub_project get_main_project created_phases phases_fit phase_count
review_sub_project-IsApproved env actor i payload db yes_please h =
    let c = review_sub_project-IsReviewed env actor i payload db h in
    let (fit, e) = decide_review-approve env actor c.s c.main payload db (
      subst (λ d. decide_review env actor c.s c.main payload d db ≡ ok c.reviewed) yes_please
        c.decided) in
    let whole = c.returned ∙ ap (λ x. (announce_review actor x.1 x.0, x.1)) e in
    let row = with_sub_status env SubProjectStatus.in_progress c.s in
    let same = (==_iff c.s.id i).0 (find?-sound (λ s. s.id == i) db.sub_projects c.found) in
    let same_main =
      (==_iff c.main.id c.s.main_project_id).0
        (find?-sound (λ m. m.id == c.s.main_project_id) db.main_projects c.scope) in
    let (range, rest) = &&-eq-true _ _ fit in
    let stored =
      subst (λ j. find? (λ s. s.id == i) (put (λ s. s.id == j) row db.sub_projects) ≡ some row)
        (sym same) (find?-put (λ s. s.id == i) db.sub_projects row c.found ((==_iff _ _).1 same)) in
    let begun =
      subst
        (λ j.
          find? (λ m. m.id == c.s.main_project_id)
            (put (λ m. m.id == j) (begun_main env c.main) db.main_projects)
          ≡ some (begun_main env c.main))
        (sym same_main)
        (find?-put (λ m. m.id == c.s.main_project_id) db.main_projects (begun_main env c.main)
          c.scope ((==_iff _ _).1 same_main)) in
    subst (IsApproved env actor i db) (sym whole) (record {
      s = c.s;
      main = c.main;
      found = c.found;
      scope = c.scope;
      returned = refl;
      stored = stored;
      begun = λ fresh. begun ∙ ap some (begun-started env c.main fresh);
      running = λ started. begun ∙ ap some (begun-running env c.main started);
      phases = refl;
      defaults = λ unversioned. default_numbers env c.s db unversioned;
      versioned = versioned_definitions c.s db;
      ordered =
          ascending-phases_from env 0 c.s.id (phase_definitions_for c.s db)
          ∙ ascending_definitions c.s db;
      codes = phases_from_codes env 0 c.s.id (phase_definitions_for c.s db);
      opened = phases_from-is_opened env 0 c.s.id (phase_definitions_for c.s db);
      numbers = phases_from_numbers env 0 c.s.id (phase_definitions_for c.s db);
      range = range;
      apart = (&&-eq-true _ _ rest).0;
      counted = λ z.
          count-append (λ p. p.sub_project_id == c.s.id) db.phases _ z
          ∙ count-phases_from env 0 c.s.id (phase_definitions_for c.s db);
    })
