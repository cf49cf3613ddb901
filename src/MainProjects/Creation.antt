-- ===== src/MainProjects/Creation.antt =====
-- `create_project`, `update_project` and `submit_project` of `MainProjectService` in
-- backend/app/services/main_projects.py.
use project_lifecycle_manage.Base.{
  ℕ, ◌==◌, ◌+◌, ltb, ℤ, pos, Text, codes, not, ◌&&◌, ◌||◌, Option, none, some, List, [], ◌∷◌, ◌++◌,
  map, filter, if◌then◌else◌,
}
use project_lifecycle_manage.Model.{
  Db, Env, User, MainProject, MainProjectStatus, is_pending_main, is_rejected_main, is_dept_manager,
  is_active_user,
}
use project_lifecycle_manage.Errors.{
  Result, ok, permission_denied, business, main_project_status, guard, ◌>>=◌, ◌>>◌,
}
use project_lifecycle_manage.Queries.{
  existing_main_project, save_main_project, notify, record_audit, is_user,
}
use project_lifecycle_manage.Numbering.{to_decimal}
use project_lifecycle_manage.SubProjects.Creation.{given_or}

pub record MainProjectCreate : Type 0 where
  pub name : Text
  pub dept_id : ℕ
  pub total_budget : ℤ
  pub expected_finish_date : ℕ
  pub remark : Option Text

-- `f"{n:04d}"`
unfoldable pub pad4 : ℕ → Text
pad4 n =
    let digits = to_decimal n in
    if ltb n 10
    then codes "000" ++ digits
    else if ltb n 100
    then codes "00" ++ digits
    else if ltb n 1000
    then codes "0" ++ digits
    else digits

unfoldable pub format_project_no : ℕ → ℕ → Text
unfolding pad4
format_project_no year n = codes "Z-" ++ (to_decimal year ++ (codes "-" ++ pad4 n))

unfoldable pub new_main_project : Env → User → MainProjectCreate → ℕ → MainProject
unfolding format_project_no
new_main_project env actor payload n = record {
  id = env.uuid 0;
  project_no = format_project_no env.this_year n;
  name = payload.name;
  dept_id = payload.dept_id;
  status = MainProjectStatus.pending_review;
  total_budget = payload.total_budget;
  expected_finish_date = payload.expected_finish_date;
  spent_amount = pos 0;
  remark = payload.remark;
  closed_at = none;
  creator_id = some actor.id;
  project_type_id = none;
  created_at = env.now;
  updated_at = env.now;
}

abbrev pub insert_main_project : MainProject → Db → Db
insert_main_project m db = record db {
  main_projects = db.main_projects ++ m ∷ [];
  main_project_no_seq = db.main_project_no_seq + 1;
}

unfoldable pub create_project : Env → User → MainProjectCreate → Db → Result (Db × MainProject)
create_project env actor payload db = do
  guard (is_dept_manager actor.role) permission_denied
  ok (
    insert_main_project (new_main_project env actor payload db.main_project_no_seq) db,
    new_main_project env actor payload db.main_project_no_seq,
  )

pub record MainProjectUpdate : Type 0 where
  pub name : Option Text
  pub dept_id : Option ℕ
  pub total_budget : Option ℤ
  pub expected_finish_date : Option ℕ
  pub remark : Option (Option Text)

unfoldable pub updated_main_project : Env → MainProjectUpdate → MainProject → MainProject
updated_main_project env payload m = record m {
  name = given_or m.name payload.name;
  dept_id = given_or m.dept_id payload.dept_id;
  total_budget = given_or m.total_budget payload.total_budget;
  expected_finish_date = given_or m.expected_finish_date payload.expected_finish_date;
  remark = given_or m.remark payload.remark;
  updated_at = env.now;
}

abbrev pub write_main_project : MainProject → Db → Db
write_main_project m db = record db { main_projects = save_main_project m db.main_projects }

unfoldable pub update_project : Env → User → ℕ → MainProjectUpdate → Db → Result (Db × MainProject)
update_project env actor i payload db = do
  m ← existing_main_project i db
  guard (is_user m.creator_id actor.id) permission_denied
  guard (is_rejected_main m.status) (business (main_project_status m.status))
  ok (
    write_main_project (updated_main_project env payload m) db,
    updated_main_project env payload m,
  )

-- `list_active_user_ids_by_role(dept_manager, excluding_user_id=u)`
unfoldable pub other_dept_managers : ℕ → Db → List ℕ
other_dept_managers u db =
    map (λ r. r.id)
      (filter (λ r. is_dept_manager r.role && (is_active_user r.status && not (r.id == u)))
        db.users)

unfoldable pub submitted_main_project : Env → MainProject → MainProject
submitted_main_project env m = record m {
  status = MainProjectStatus.pending_review;
  updated_at = if is_pending_main m.status then m.updated_at else env.now;
}

abbrev pub audit_main_project : Text → User → MainProject → Db → Db
audit_main_project action actor m db = record_audit actor action (codes "main_project") m.id db

abbrev pub announce_project : User → MainProject → Db → Db
announce_project actor m db =
    audit_main_project (codes "main_project.submit") actor m
      (notify (codes "project_pending_review") (other_dept_managers actor.id db) m.id db)

unfoldable pub submit_project : Env → User → ℕ → Db → Result (Db × MainProject)
submit_project env actor i db = do
  m ← existing_main_project i db
  guard (is_user m.creator_id actor.id) permission_denied
  guard (is_pending_main m.status || is_rejected_main m.status)
      (business (main_project_status m.status))
  ok (
    announce_project actor (submitted_main_project env m)
        (write_main_project (submitted_main_project env m) db),
    submitted_main_project env m,
  )
