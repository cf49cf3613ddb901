-- ===== src/SubProjects/Creation.antt =====
-- `create_sub_project`, `update_sub_project` and `submit_sub_project` of `SubProjectService` in
-- backend/app/services/sub_projects.py. The mixin of backend/app/models/base.py sets `updated_at` in
-- every UPDATE of a row.
use project_lifecycle_manage.Base.{
  ℕ, ◌==◌, ◌+◌, ltb, ℤ, pos, Text, codes, text_le, Bool, true, false, ◌&&◌, ◌||◌, Option, none,
  some, List, [], ◌∷◌, ◌++◌, find?, filter, put, sort_by, if◌then◌else◌,
}
use project_lifecycle_manage.Model.{
  Db, Env, User, SubProject, SubProjectStatus, MainProject, SubProjectMember, SubProjectMemberRole,
  SubProjectNoCounter, WorkflowTemplate, WorkflowTemplateVersion, is_published, is_open_main,
  is_pending_project, is_rejected_project, is_dept_manager,
}
use project_lifecycle_manage.Errors.{
  Result, ok, err, permission_denied, conflict, not_found, no_workflow_version, no_default_version,
  business, main_project_status, sub_project_status, guard, ◌>>=◌, ◌>>◌,
}
use project_lifecycle_manage.Queries.{
  existing_main_project, existing_sub_project, save_sub_project, list_active_user_ids_by_role,
  notify, record_audit, is_user,
}
use project_lifecycle_manage.Numbering.{format_number, sub_separator}

unfoldable pub get_workflow_template_version : ℕ → Db → Option WorkflowTemplateVersion
get_workflow_template_version i db = find? (λ v. v.id == i) db.workflow_versions

abbrev pub is_published_for : ℕ → Option WorkflowTemplate → Bool
is_published_for type_id none = false
is_published_for type_id (some t) = t.project_type_id == type_id && is_published t.status

unfoldable pub template_of_version : Db → WorkflowTemplateVersion → Option WorkflowTemplate
template_of_version db v = find? (λ t. t.id == v.template_id) db.workflow_templates

abbrev template_name : Option WorkflowTemplate → Text
template_name none = []
template_name (some t) = t.name

-- `published_at DESC NULLS LAST`: the first stands strictly before the second.
abbrev published_later : Option ℕ → Option ℕ → Bool
published_later (some a) (some b) = ltb b a
published_later (some a) none = true
published_later none b = false

abbrev published_together : Option ℕ → Option ℕ → Bool
published_together (some a) (some b) = a == b
published_together none none = true
published_together _ _ = false

-- Then `version_no DESC`, then the name of the template.
unfoldable pub stands_before : Db → WorkflowTemplateVersion → WorkflowTemplateVersion → Bool
unfolding template_of_version
stands_before db a b =
    published_later a.published_at b.published_at
    || (published_together a.published_at b.published_at
        && (ltb b.version_no a.version_no
            || (a.version_no == b.version_no
                && text_le (template_name (template_of_version db a))
                    (template_name (template_of_version db b)))))

abbrev pub first_version : List WorkflowTemplateVersion → Option WorkflowTemplateVersion
first_version [] = none
first_version (v ∷ vs) = some v

unfoldable pub get_default_workflow_template_version : ℕ → Db → Option WorkflowTemplateVersion
unfolding template_of_version stands_before
get_default_workflow_template_version type_id db = first_version (
    sort_by (stands_before db) (
      filter (λ v. is_published v.status && is_published_for type_id (template_of_version db v))
        db.workflow_versions))

pub record SubProjectCreate : Type 0 where
  pub name : Text
  pub main_project_id : ℕ
  pub dept_id : ℕ
  pub budget : ℤ
  pub plan_end_date : Option ℕ
  pub workflow_template_version_id : Option ℕ
  pub remark : Option Text

-- The version that the payload names.
abbrev named_version : Option WorkflowTemplateVersion → Result (Option ℕ)
named_version none = err (not_found no_workflow_version)
named_version (some v) = guard (is_published v.status) conflict >> ok (some v.id)

abbrev default_version : Option WorkflowTemplateVersion → Result (Option ℕ)
default_version none = err (not_found no_default_version)
default_version (some v) = ok (some v.id)

abbrev pub version_for : Option ℕ → Option ℕ → Db → Result (Option ℕ)
version_for (some i) type_id db = named_version (get_workflow_template_version i db)
version_for none (some t) db = default_version (get_default_workflow_template_version t db)
version_for none none db = ok none

unfoldable pub counter_of : ℕ → Db → Option SubProjectNoCounter
counter_of m db = find? (λ c. c.main_project_id == m) db.sub_project_no_counters

-- `next_sequence - 1` after the upsert; `int(value or 1)`.
abbrev pub drawn_sequence : Option SubProjectNoCounter → ℕ
drawn_sequence none = 1
drawn_sequence (some c) = if c.next_sequence == 0 then 1 else c.next_sequence

abbrev pub upsert_counter :
    ℕ → Option SubProjectNoCounter → List SubProjectNoCounter → List SubProjectNoCounter
upsert_counter m none counters = counters ++ record { main_project_id = m; next_sequence = 2 } ∷ []
upsert_counter m (some c) counters =
    put (λ r. r.main_project_id == m) (record c { next_sequence = c.next_sequence + 1 }) counters

unfoldable pub next_sub_project_sequence : ℕ → Db → ℕ
unfolding counter_of
next_sub_project_sequence m db = drawn_sequence (counter_of m db)

unfoldable pub new_sub_project :
    Env → User → SubProjectCreate → MainProject → Option ℕ → ℕ → SubProject
new_sub_project env actor payload main version sequence = record {
  id = env.uuid 0;
  project_no = format_number sub_separator main.project_no sequence;
  name = payload.name;
  main_project_id = main.id;
  dept_id = payload.dept_id;
  budget = payload.budget;
  manager_id = actor.id;
  creator_id = some actor.id;
  status = SubProjectStatus.pending_review;
  plan_end_date = payload.plan_end_date;
  actual_end_date = none;
  spent_amount = pos 0;
  remark = payload.remark;
  closed_at = none;
  workflow_template_version_id = version;
  created_at = env.now;
  updated_at = env.now;
}

-- A member row with the draw `n`.
unfoldable pub new_member : Env → ℕ → ℕ → ℕ → SubProjectMemberRole → SubProjectMember
new_member env n sub_project_id user_id role = record {
  id = env.uuid n;
  sub_project_id = sub_project_id;
  user_id = user_id;
  role_in_project = role;
  joined_at = env.now;
}

abbrev pub insert_sub_project : Env → User → ℕ → SubProject → Db → Db
insert_sub_project env actor main_id s db = record db {
  sub_project_no_counters =
      upsert_counter main_id (counter_of main_id db) db.sub_project_no_counters;
  sub_projects = db.sub_projects ++ s ∷ [];
  members = db.members ++ new_member env 1 s.id actor.id SubProjectMemberRole.proj_leader ∷ [];
}

abbrev pub created_sub_project :
    Env → User → SubProjectCreate → MainProject → Option ℕ → Db → SubProject
created_sub_project env actor payload main version db =
    new_sub_project env actor payload main version (next_sub_project_sequence main.id db)

unfoldable pub create_sub_project : Env → User → SubProjectCreate → Db → Result (Db × SubProject)
create_sub_project env actor payload db = do
  main ← existing_main_project payload.main_project_id db
  guard (is_open_main main.status) (business (main_project_status main.status))
  version ← version_for payload.workflow_template_version_id main.project_type_id db
  ok (
    insert_sub_project env actor main.id (created_sub_project env actor payload main version db) db,
    created_sub_project env actor payload main version db,
  )

-- A field that may be null is `some` where it is in `model_fields_set`.
pub record SubProjectUpdate : Type 0 where
  pub name : Option Text
  pub dept_id : Option ℕ
  pub budget : Option ℤ
  pub plan_end_date : Option (Option ℕ)
  pub remark : Option (Option Text)

abbrev pub given_or {ℓ} : {A : Type ℓ} → A → Option A → A
given_or old none = old
given_or old (some new) = new

unfoldable pub updated_sub_project : Env → SubProjectUpdate → SubProject → SubProject
updated_sub_project env payload s = record s {
  name = given_or s.name payload.name;
  dept_id = given_or s.dept_id payload.dept_id;
  budget = given_or s.budget payload.budget;
  plan_end_date = given_or s.plan_end_date payload.plan_end_date;
  remark = given_or s.remark payload.remark;
  updated_at = env.now;
}

abbrev pub write_sub_project : SubProject → Db → Db
write_sub_project s db = record db { sub_projects = save_sub_project s db.sub_projects }

unfoldable pub update_sub_project :
    Env → User → ℕ → SubProjectUpdate → Db → Result (Db × SubProject)
update_sub_project env actor i payload db = do
  s ← existing_sub_project i db
  guard (is_user s.creator_id actor.id) permission_denied
  guard (is_rejected_project s.status) (business (sub_project_status s.status))
  ok (write_sub_project (updated_sub_project env payload s) db, updated_sub_project env payload s)

-- The row changes only where it was rejected.
unfoldable pub submitted_sub_project : Env → SubProject → SubProject
submitted_sub_project env s = record s {
  status = SubProjectStatus.pending_review;
  updated_at = if is_pending_project s.status then s.updated_at else env.now;
}

abbrev pub announce_submission : User → SubProject → Db → Db
announce_submission actor s db =
    record_audit actor (codes "sub_project.submit") (codes "sub_project") s.id (
      notify (codes "project_pending_review") (list_active_user_ids_by_role is_dept_manager none db)
        s.id db)

unfoldable pub submit_sub_project : Env → User → ℕ → Db → Result (Db × SubProject)
submit_sub_project env actor i db = do
  s ← existing_sub_project i db
  guard (is_user s.creator_id actor.id) permission_denied
  guard (is_pending_project s.status || is_rejected_project s.status)
      (business (sub_project_status s.status))
  ok (
    announce_submission actor (submitted_sub_project env s)
        (write_sub_project (submitted_sub_project env s) db),
    submitted_sub_project env s,
  )
