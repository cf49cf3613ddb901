-- ===== src/Acceptance/Service.antt =====
-- `AcceptanceStepService` of backend/app/services/acceptance_steps.py.
use project_lifecycle_manage.Base.{
  ℕ, ◌==◌, leb, Bool, true, false, not, ◌&&◌, ◌||◌, Option, none, some, List, [], ◌∷◌, ◌++◌, Text,
  codes, strip, text_eq, find?, filter, count, put, sort_by, is_some, ℤ, pos, negsuc, leb_ℤ,
  if◌then◌else◌,
}
use project_lifecycle_manage.Model.{
  Db, Env, User, SubProject, Phase, AcceptanceStep, AcceptanceStepStatus, is_admin, is_proj_leader,
  is_in_progress, is_completed_step,
}
use project_lifecycle_manage.Errors.{
  Result, ok, permission_denied, conflict, validation_failed, step_number, step_name, not_found,
  no_step, business, not_acceptance_phase, acceptance_not_in_progress, responsible_not_member,
  step_report_missing, guard, from_option, ◌>>=◌, ◌>>◌,
}
use project_lifecycle_manage.Queries.{existing_phase, existing_sub_project, get_member}

unfoldable pub get_step : ℕ → Db → Option AcceptanceStep
get_step i db = find? (λ s. s.id == i) db.acceptance_steps

unfoldable pub eq_ℤ : ℤ → ℤ → Bool
eq_ℤ (pos a) (pos b) = a == b
eq_ℤ (negsuc a) (negsuc b) = a == b
eq_ℤ _ _ = false

-- `phase_id == ... and step_no == ...`
abbrev pub has_number : ℕ → ℤ → AcceptanceStep → Bool
has_number phase_id step_no s = s.phase_id == phase_id && eq_ℤ s.step_no step_no

unfoldable pub get_step_by_no : ℕ → ℤ → Db → Option AcceptanceStep
get_step_by_no phase_id step_no db = find? (has_number phase_id step_no) db.acceptance_steps

unfoldable pub list_steps_of_phase : ℕ → Db → List AcceptanceStep
list_steps_of_phase phase_id db =
    sort_by (λ a b. leb_ℤ a.step_no b.step_no)
      (filter (λ s. s.phase_id == phase_id) db.acceptance_steps)

abbrev is_step : Option ℕ → ℕ → Bool
is_step none i = false
is_step (some j) i = j == i

unfoldable pub count_step_reports : ℕ → Db → ℕ
count_step_reports step_id db =
    count
      (λ d.
        is_step d.acceptance_step_id step_id
        && (text_eq d.doc_type (codes "acceptance_report") && not d.is_deleted))
      db.documents

-- Every role may view.
unfoldable pub list_steps : ℕ → Db → Result (List AcceptanceStep)
list_steps phase_id db = do
  phase ← existing_phase phase_id db
  _ ← existing_sub_project phase.sub_project_id db
  ok (list_steps_of_phase phase_id db)

abbrev pub can_create : User → SubProject → Bool
can_create actor sub_project =
    is_admin actor.role || (is_proj_leader actor.role && sub_project.manager_id == actor.id)

abbrev pub can_update : User → SubProject → AcceptanceStep → Bool
can_update actor sub_project step = can_create actor sub_project || actor.id == step.responsible_id

unfoldable pub ensure_phase_accepts_steps : Phase → Result (Unit {0})
ensure_phase_accepts_steps phase = do
  guard (phase.phase_no == 4) (business (not_acceptance_phase phase.phase_no))
  guard (is_in_progress phase.status) (business (acceptance_not_in_progress phase.status))

abbrev pub non_blank : Text → Bool
non_blank [] = false
non_blank (c ∷ s) = true

abbrev kept_text : Text → Option Text
kept_text [] = none
kept_text (c ∷ s) = some (c ∷ s)

abbrev pub clean_description : Option Text → Option Text
clean_description none = none
clean_description (some t) = kept_text (strip t)

pub record AcceptanceStepCreate : Type 0 where
  pub step_no : ℤ
  pub step_name : Text
  pub responsible_id : ℕ
  pub plan_date : Option ℕ
  pub description : Option Text

abbrev pub is_free : Option AcceptanceStep → Bool
is_free none = true
is_free (some s) = false

unfoldable pub new_step : Env → Phase → AcceptanceStepCreate → AcceptanceStep
new_step env phase payload = record {
  id = env.uuid 0;
  phase_id = phase.id;
  step_no = payload.step_no;
  step_name = strip payload.step_name;
  responsible_id = payload.responsible_id;
  plan_date = payload.plan_date;
  description = clean_description payload.description;
  status = AcceptanceStepStatus.not_started;
  completed_at = none;
  created_at = env.now;
  updated_at = env.now;
}

abbrev pub add_step : AcceptanceStep → Db → Db
add_step step db = record db { acceptance_steps = db.acceptance_steps ++ step ∷ [] }

unfoldable pub create_step :
    Env → User → ℕ → AcceptanceStepCreate → Db → Result (Db × AcceptanceStep)
create_step env actor phase_id payload db = do
  phase ← existing_phase phase_id db
  sub_project ← existing_sub_project phase.sub_project_id db
  guard (can_create actor sub_project) permission_denied
  ensure_phase_accepts_steps phase
  guard (is_some (get_member sub_project.id payload.responsible_id db))
      (business (responsible_not_member payload.responsible_id))
  guard (leb_ℤ (pos 1) payload.step_no) (validation_failed step_number)
  guard (non_blank (strip payload.step_name)) (validation_failed step_name)
  guard (is_free (get_step_by_no phase.id payload.step_no db)) conflict
  ok (add_step (new_step env phase payload) db, new_step env phase payload)

-- A completed step has a time, any other none.
abbrev pub restamped : Env → AcceptanceStepStatus → AcceptanceStep → AcceptanceStep
restamped env status step = record step {
  completed_at = if is_completed_step status then some env.now else none;
  status = status;
  updated_at = env.now;
}

abbrev pub save_step : AcceptanceStep → Db → Db
save_step step db = record db {
  acceptance_steps = put (λ s. s.id == step.id) step db.acceptance_steps;
}

unfoldable pub update_step :
    Env → User → ℕ → ℕ → AcceptanceStepStatus → Db → Result (Db × AcceptanceStep)
update_step env actor phase_id step_id status db = do
  phase ← existing_phase phase_id db
  sub_project ← existing_sub_project phase.sub_project_id db
  ensure_phase_accepts_steps phase
  step ← from_option (get_step step_id db) (not_found no_step)
  guard (step.phase_id == phase.id) (not_found no_step)
  guard (can_update actor sub_project step) permission_denied
  guard (not (is_completed_step status) || leb 1 (count_step_reports step.id db))
      (business (step_report_missing step.id))
  ok (save_step (restamped env status step) db, restamped env status step)
