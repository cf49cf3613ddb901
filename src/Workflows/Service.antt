-- ===== src/Workflows/Service.antt =====
-- `WorkflowService` of backend/app/services/workflows.py, with the constraints of
-- backend/app/models/workflows.py on the rows that it writes.
use project_lifecycle_manage.Base.{
  ℕ, ◌==◌, ◌+◌, ltb, Text, codes, text_eq, Bool, true, false, not, ◌&&◌, Option, none, some, List,
  [], ◌∷◌, ◌++◌, any, find?, put, if◌then◌else◌,
}
use project_lifecycle_manage.Model.{
  Db, Env, User, ProjectType, WorkflowTemplate, WorkflowTemplateVersion, WorkflowTemplateStatus,
  PhaseDefinition, is_published, is_draft,
}
use project_lifecycle_manage.Errors.{
  Result, ok, conflict, integrity_error, not_found, no_project_type, no_workflow_version, guard,
  from_option, ◌>>=◌, ◌>>◌,
}
use project_lifecycle_manage.Queries.{record_audit}
use project_lifecycle_manage.SubProjects.Creation.{get_workflow_template_version}

unfoldable pub get_project_type : ℕ → Db → Option ProjectType
get_project_type i db = find? (λ t. t.id == i) db.project_types

unfoldable pub new_project_type : Env → Text → Text → ProjectType
new_project_type env code name = record { id = env.uuid 0; code = code; name = name }

abbrev pub insert_project_type : ProjectType → Db → Db
insert_project_type t db = record db { project_types = db.project_types ++ t ∷ [] }

unfoldable pub create_project_type : Env → User → Text → Text → Db → Result (Db × ProjectType)
create_project_type env actor code name db = do
  guard (not (any (λ t. text_eq t.code code) db.project_types)) conflict
  ok (
    record_audit actor (codes "workflow.project_type.create") (codes "project_type") (env.uuid 0)
        (insert_project_type (new_project_type env code name) db),
    new_project_type env code name,
  )

-- `max(version_no)` of a template's versions; 0 without any.
unfoldable pub max_version_no : ℕ → List WorkflowTemplateVersion → ℕ
max_version_no template_id [] = 0
max_version_no template_id (v ∷ vs) =
    let rest = max_version_no template_id vs in
    if v.template_id == template_id && ltb rest v.version_no then v.version_no else rest

unfoldable pub new_template : Env → ℕ → Text → WorkflowTemplate
new_template env type_id name = record {
  id = env.uuid 0;
  project_type_id = type_id;
  name = name;
  status = WorkflowTemplateStatus.draft;
}

unfoldable pub first_draft : Env → Db → WorkflowTemplateVersion
first_draft env db = record {
  id = env.uuid 1;
  template_id = env.uuid 0;
  version_no = max_version_no (env.uuid 0) db.workflow_versions + 1;
  status = WorkflowTemplateStatus.draft;
  phase_definitions = [];
  published_at = none;
}

abbrev pub insert_template : Env → ℕ → Text → Db → Db
insert_template env type_id name db = record db {
  workflow_templates = db.workflow_templates ++ new_template env type_id name ∷ [];
  workflow_versions = db.workflow_versions ++ first_draft env db ∷ [];
}

-- uq_workflow_templates_project_type_name
abbrev pub name_taken : ℕ → Text → List WorkflowTemplate → Bool
name_taken type_id name ts = any (λ t. t.project_type_id == type_id && text_eq t.name name) ts

unfoldable pub create_template : Env → User → ℕ → Text → Db → Result (Db × WorkflowTemplate)
create_template env actor type_id name db = do
  project_type ← from_option (get_project_type type_id db) (not_found no_project_type)
  guard (not (name_taken type_id name db.workflow_templates)) integrity_error
  ok (
    record_audit actor (codes "workflow.template.create") (codes "workflow_template") (env.uuid 0)
        (insert_template env type_id name db),
    new_template env type_id name,
  )

abbrev pub existing_version : ℕ → Db → Result WorkflowTemplateVersion
existing_version i db =
    from_option (get_workflow_template_version i db) (not_found no_workflow_version)

abbrev pub write_version : WorkflowTemplateVersion → Db → Db
write_version v db = record db {
  workflow_versions = put (λ r. r.id == v.id) v db.workflow_versions;
}

abbrev pub audit_version : Text → User → ℕ → Db → Db
audit_version action actor i db = record_audit actor action (codes "workflow_template_version") i db

abbrev pub with_definitions :
    List PhaseDefinition → WorkflowTemplateVersion → WorkflowTemplateVersion
with_definitions ds v = record v { phase_definitions = ds }

-- With the check of `replace_phase_definitions`.
unfoldable pub update_phase_definitions :
    User → ℕ → List PhaseDefinition → Db → Result (Db × WorkflowTemplateVersion)
update_phase_definitions actor i ds db = do
  v ← existing_version i db
  guard (not (is_published v.status)) conflict
  ok (
    audit_version (codes "workflow.version.update_phase_definitions") actor v.id
        (write_version (with_definitions ds v) db),
    with_definitions ds v,
  )

abbrev pub some_definitions : List PhaseDefinition → Bool
some_definitions [] = false
some_definitions (d ∷ ds) = true

abbrev pub published_version : Env → WorkflowTemplateVersion → WorkflowTemplateVersion
published_version env v = record v {
  status = WorkflowTemplateStatus.published;
  published_at = some env.now;
}

unfoldable pub publish_template_version :
    Env → User → ℕ → Db → Result (Db × WorkflowTemplateVersion)
publish_template_version env actor i db = do
  v ← existing_version i db
  guard (is_draft v.status) conflict
  guard (some_definitions v.phase_definitions) conflict
  ok (
    audit_version (codes "workflow.version.publish") actor v.id
        (write_version (published_version env v) db),
    published_version env v,
  )
