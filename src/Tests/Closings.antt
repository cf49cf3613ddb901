-- ===== src/Tests/Closings.antt =====
-- A sub project under a workflow version of one phase (backend/app/services/sub_projects.py): it is
-- approved, and cannot be closed when its phase is completed.
use project_lifecycle_manage.Base.{
  ◌==◌, false, none, some, [], ◌∷◌, ◌≡◌, refl, codes, find?, length, count, sort_by, insert_by,
  ◌+ℤ◌, all, distinct, any, put,
}
use project_lifecycle_manage.Model.{
  Db, SubProject, SubProjectStatus, Phase, PhaseStatus, WorkflowTemplateVersion,
  WorkflowTemplateStatus,
}
use project_lifecycle_manage.Errors.{ok, err, Error}
use project_lifecycle_manage.Queries.{get_sub_project, get_main_project}
use project_lifecycle_manage.SubProjects.Review.{
  review_sub_project, phase_definitions_for, by_order, validate_over_budget, sum_approved_budget,
  phases_fit, created_phases, phases_from,
}
use project_lifecycle_manage.SubProjects.Closing.{close_sub_project, phase_count}
use project_lifecycle_manage.SubProjects.Ending.{close_sub_project_not_six}
use project_lifecycle_manage.Tests.Data.{value, env, boss, sub, db}
use project_lifecycle_manage.Tests.Portfolios.{manager, approval}
use project_lifecycle_manage.SubProjects.Creation.{get_workflow_template_version}
use project_lifecycle_manage.Payments.Service.{sum_by}

abbrev short_version : WorkflowTemplateVersion
short_version = record {
  id = 60;
  template_id = 61;
  version_no = 1;
  status = WorkflowTemplateStatus.published;
  phase_definitions =
      record { order = 1; key = codes "p"; name = codes "phase"; required_documents = [] } ∷ [];
  published_at = some 1;
}

abbrev proposed : SubProject
proposed = record sub {
  status = SubProjectStatus.pending_review;
  workflow_template_version_id = some 60;
}

abbrev start : Db
start = record db {
  sub_projects = proposed ∷ [];
  phases = [];
  workflow_versions = short_version ∷ [];
}

abbrev approved : Db × SubProject
approved = value (start, sub) (review_sub_project env boss 9 approval start)

approves : review_sub_project env boss 9 approval start ≡ ok approved
unfolding review_sub_project get_sub_project find? get_main_project validate_over_budget ◌+ℤ◌
    sum_approved_budget sum_by phases_fit all created_phases phases_from
    get_workflow_template_version by_order sort_by insert_by distinct any
approves = refl

abbrev only_phase : Phase
only_phase = record {
  id = 1000;
  sub_project_id = 9;
  phase_no = 1;
  code = codes "p";
  name = codes "phase";
  status = PhaseStatus.completed;
  enter_at = some 100;
  finish_at = some 101;
  procurement_type = none;
  created_at = 100;
  updated_at = 101;
}

abbrev finished_db : Db
finished_db = record approved.0 { phases = only_phase ∷ [] }

found : get_sub_project 9 start ≡ some proposed
unfolding get_sub_project find?
found = refl

none_yet : phase_count 9 start ≡ 0
unfolding phase_count count
none_yet = refl

one_definition : length (phase_definitions_for proposed start) == 6 ≡ false
unfolding phase_definitions_for get_workflow_template_version find? by_order sort_by insert_by
one_definition = refl

one_each : phase_count 9 finished_db ≡ phase_count 9 approved.0
unfolding phase_count review_sub_project get_sub_project find? get_main_project validate_over_budget
    ◌+ℤ◌ sum_approved_budget sum_by phases_fit all created_phases phases_from
    get_workflow_template_version by_order sort_by insert_by distinct any count
one_each = refl

stands : get_sub_project 9 finished_db ≡ some approved.1
unfolding get_sub_project find? review_sub_project get_main_project validate_over_budget ◌+ℤ◌
    sum_approved_budget sum_by phases_fit all created_phases phases_from
    get_workflow_template_version by_order sort_by insert_by distinct any put
stands = refl

close_sub_project_not_six_example :
    (e : Error) × (close_sub_project env manager 9 finished_db ≡ err e)
unfolding review_sub_project get_sub_project find? get_main_project validate_over_budget ◌+ℤ◌
    sum_approved_budget sum_by phases_fit all created_phases phases_from
    get_workflow_template_version by_order sort_by insert_by distinct any
close_sub_project_not_six_example =
    close_sub_project_not_six env env boss manager 9 approval proposed approved.1 start finished_db
      refl found none_yet approves one_definition one_each stands refl
