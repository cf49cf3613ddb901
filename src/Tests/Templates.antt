-- ===== src/Tests/Templates.antt =====
-- Runs of backend/app/services/workflows.py: a template of a project type is written and published.
use project_lifecycle_manage.Base.{
  ◌+◌, List, true, some, [], ◌∷◌, ◌≡◌, refl, codes, find?, any, put, text_eq, all,
}
use project_lifecycle_manage.Model.{
  Db, Env, MainProject, WorkflowTemplate, WorkflowTemplateVersion, PhaseDefinition, is_published,
}
use project_lifecycle_manage.Errors.{ok, err, not_found, no_default_version}
use project_lifecycle_manage.Queries.{get_main_project}
use project_lifecycle_manage.SubProjects.Creation.{
  create_sub_project, get_workflow_template_version,
}
use project_lifecycle_manage.Workflows.Service.{
  create_template, update_phase_definitions, publish_template_version, new_template, first_draft,
  get_project_type,
}
use project_lifecycle_manage.Workflows.Publishing.{
  adds_template, redefines, publishes, stay, and_then, reachable_published, reachable_no_default,
}
use project_lifecycle_manage.Tests.Data.{value, env, boss, leader, main, db}
use project_lifecycle_manage.Tests.Portfolios.{proposal}

abbrev typed_main : MainProject
typed_main = record main { project_type_id = some 50 }

abbrev start : Db
start = record db {
  main_projects = typed_main ∷ [];
  sub_projects = [];
  phases = [];
  project_types = record { id = 50; code = codes "hw"; name = codes "hardware" } ∷ [];
}

abbrev template : WorkflowTemplate
template = new_template env 50 (codes "standard")

abbrev draft : WorkflowTemplateVersion
draft = first_draft env start

abbrev definitions : List PhaseDefinition
definitions =
    record { order = 1; key = codes "p"; name = codes "phase"; required_documents = [] } ∷ []

abbrev with_template : Db × WorkflowTemplate
with_template = value (start, template) (create_template env boss 50 (codes "standard") start)

adds : create_template env boss 50 (codes "standard") start ≡ ok with_template
unfolding create_template get_project_type find? any
adds = refl

abbrev defined : Db × WorkflowTemplateVersion
defined = value (start, draft) (update_phase_definitions boss 1001 definitions with_template.0)

defines : update_phase_definitions boss 1001 definitions with_template.0 ≡ ok defined
unfolding update_phase_definitions get_workflow_template_version find? create_template
    get_project_type any first_draft
defines = refl

abbrev released : Db × WorkflowTemplateVersion
released = value (start, draft) (publish_template_version env boss 1001 defined.0)

releases : publish_template_version env boss 1001 defined.0 ≡ ok released
unfolding publish_template_version get_workflow_template_version find? update_phase_definitions
    create_template get_project_type any first_draft put
releases = refl

abbrev later : Env
later = record { now = 200; today = 8; this_year = 2026; uuid = λ n. 3000 + n }

abbrev second_template : Db × WorkflowTemplate
second_template = value (start, template) (create_template later boss 50 (codes "short") released.0)

adds_second : create_template later boss 50 (codes "short") released.0 ≡ ok second_template
unfolding create_template get_project_type find? publish_template_version
    get_workflow_template_version update_phase_definitions any first_draft put new_template text_eq
adds_second = refl

found : get_workflow_template_version 1001 released.0 ≡ some released.1
unfolding get_workflow_template_version find? publish_template_version update_phase_definitions
    create_template get_project_type any first_draft put
found = refl

shown : is_published released.1.status ≡ true
unfolding publish_template_version get_workflow_template_version find? update_phase_definitions
    create_template get_project_type any first_draft put
shown = refl

reachable_published_example : get_workflow_template_version 1001 second_template.0 ≡ some released.1
reachable_published_example =
    reachable_published 1001 released.1
      (and_then stay (adds_template later boss 50 (codes "short") adds_second)) found shown

main_found : get_main_project 5 released.0 ≡ some typed_main
unfolding get_main_project find? publish_template_version get_workflow_template_version
    update_phase_definitions create_template get_project_type any first_draft put
main_found = refl

reachable_no_default_example :
    create_sub_project env leader proposal released.0 ≡ err (not_found no_default_version)
unfolding all
reachable_no_default_example =
    reachable_no_default env leader proposal 50 typed_main
      (and_then
        (and_then (and_then stay (adds_template env boss 50 (codes "standard") adds))
          (redefines boss 1001 definitions defines))
        (publishes env boss 1001 releases))
      refl main_found refl refl refl
