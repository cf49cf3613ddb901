-- ===== src/Tests/Acceptances.antt =====
-- The leader adds an acceptance step, and completes it once its report is uploaded.
use project_lifecycle_manage.Base.{
  ◌≡◌, ◌≢◌, ◌++◌, refl, none, some, [], ◌∷◌, true, false, codes, pos, all, ◌≤◌, find?, strip, count,
  text_eq,
}
use project_lifecycle_manage.Model.{
  Db, Phase, PhaseStatus, AcceptanceStep, AcceptanceStepStatus, SubProjectMemberRole, Document,
  is_in_progress, is_completed_step,
}
use project_lifecycle_manage.Errors.{ok}
use project_lifecycle_manage.Queries.{get_phase, get_sub_project, get_member}
use project_lifecycle_manage.Acceptance.Service.{
  AcceptanceStepCreate, create_step, update_step, new_step, get_step, count_step_reports,
  ensure_phase_accepts_steps, get_step_by_no,
}
use project_lifecycle_manage.Acceptance.Steps.{
  numbered, is_dated, IsCreated, create_step-IsCreated, create_step_keeps, update_step_effect,
}
use project_lifecycle_manage.Tests.Data.{value, env, leader, waiting_phase, db}

abbrev report : Document
report = record {
  id = 40;
  sub_project_id = 9;
  phase_id = 14;
  acceptance_step_id = some 1000;
  doc_type = codes "acceptance_report";
  file_name = codes "r.pdf";
  file_path = codes "k/r";
  file_size = 1;
  version = 1;
  is_latest = true;
  is_deleted = false;
  uploader_id = 1;
  created_at = 1;
  updated_at = 1;
}

abbrev pub accepting_db : Db
accepting_db = record db {
  phases = record (waiting_phase 4) { status = PhaseStatus.in_progress; enter_at = some 2 } ∷ [];
  members =
      record {
        id = 1;
        sub_project_id = 9;
        user_id = 1;
        role_in_project = SubProjectMemberRole.proj_leader;
        joined_at = 1;
      }
      ∷ [];
  documents = report ∷ [];
}

abbrev payload : AcceptanceStepCreate
payload = record {
  step_no = pos 1;
  step_name = codes " first ";
  responsible_id = 1;
  plan_date = none;
  description = none;
}

abbrev no_step_yet : AcceptanceStep
no_step_yet = record {
  id = 0;
  phase_id = 0;
  step_no = pos 0;
  step_name = [];
  responsible_id = 0;
  plan_date = none;
  description = none;
  status = AcceptanceStepStatus.not_started;
  completed_at = none;
  created_at = 0;
  updated_at = 0;
}

abbrev created : Db × AcceptanceStep
created = value (accepting_db, no_step_yet) (create_step env leader 14 payload accepting_db)

creates : create_step env leader 14 payload accepting_db ≡ ok created
unfolding create_step get_phase find? get_sub_project ensure_phase_accepts_steps get_member strip
    get_step_by_no
creates = refl

none_numbered : numbered accepting_db.acceptance_steps ≡ true
unfolding numbered
none_numbered = refl

none_dated : all is_dated accepting_db.acceptance_steps ≡ true
unfolding all
none_dated = refl

create_step-IsCreated_example :
    IsCreated env leader 14 payload accepting_db
    × (created.1.phase_id ≡ 14)
    × (created.1.step_no ≡ pos 1)
    × (created.1.step_name ≡ strip payload.step_name)
    × (created.1.responsible_id ≡ 1)
    × (created.1.plan_date ≡ none)
    × (created.1.status ≡ AcceptanceStepStatus.not_started)
    × (created.1.completed_at ≡ none)
    × (created.1.created_at ≡ 100)
    × (created.0.acceptance_steps ≡ accepting_db.acceptance_steps ++ created.1 ∷ [])
    × (get_step_by_no 14 (pos 1) created.0 ≡ some created.1)
create_step-IsCreated_example = create_step-IsCreated env leader 14 payload accepting_db creates

create_step_keeps_example :
    (numbered created.0.acceptance_steps ≡ true) × (all is_dated created.0.acceptance_steps ≡ true)
create_step_keeps_example =
    create_step_keeps env leader 14 payload accepting_db creates none_numbered none_dated

abbrev updated : Db × AcceptanceStep
updated = value created (update_step env leader 14 1000 AcceptanceStepStatus.completed created.0)

updates : update_step env leader 14 1000 AcceptanceStepStatus.completed created.0 ≡ ok updated
unfolding update_step create_step get_phase find? get_sub_project ensure_phase_accepts_steps
    get_member strip get_step_by_no get_step new_step count_step_reports count text_eq
updates = refl

update_step_effect_example :
    (phase : Phase) × (step : AcceptanceStep) × (get_phase 14 created.0 ≡ some phase)
    × (phase.phase_no ≡ 4)
    × (is_in_progress phase.status ≡ true)
    × (get_step 1000 created.0 ≡ some step)
    × (step.phase_id ≡ phase.id)
    × (updated.1 ≡ record step {
      status = AcceptanceStepStatus.completed;
      completed_at = updated.1.completed_at;
      updated_at = 100;
    })
    × (AcceptanceStepStatus.completed ≡ AcceptanceStepStatus.completed
        → updated.1.completed_at ≡ some 100)
    × (AcceptanceStepStatus.completed ≢ AcceptanceStepStatus.completed
        → updated.1.completed_at ≡ none)
    × (get_step 1000 updated.0 ≡ some updated.1)
    × (is_completed_step AcceptanceStepStatus.completed ≡ true
        → 1 ≤ count_step_reports 1000 created.0)
    × (all is_dated updated.0.acceptance_steps ≡ true)
update_step_effect_example =
    update_step_effect env leader 14 1000 AcceptanceStepStatus.completed created.0 updates
      (create_step_keeps env leader 14 payload accepting_db creates none_numbered none_dated).1
