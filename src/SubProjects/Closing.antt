-- ===== src/SubProjects/Closing.antt =====
-- `close_sub_project` and `terminate_sub_project` of `SubProjectService` in
-- backend/app/services/sub_projects.py.
use project_lifecycle_manage.Base.{
  ℕ, ◌==◌, ltb, Text, codes, not, ◌&&◌, ◌||◌, Option, none, some, count,
}
use project_lifecycle_manage.Model.{
  Db, Env, User, SubProject, SubProjectStatus, is_ended_project, is_started_project,
  is_completed_project, is_completed, is_admin, is_dept_manager,
}
use project_lifecycle_manage.Errors.{
  Result, ok, permission_denied, business, sub_project_status, phases_incomplete, guard, ◌>>=◌,
  ◌>>◌,
}
use project_lifecycle_manage.Queries.{existing_sub_project, record_audit}
use project_lifecycle_manage.SubProjects.Creation.{write_sub_project}

-- `phase_completion_counts`
unfoldable pub phase_count : ℕ → Db → ℕ
phase_count s db = count (λ p. p.sub_project_id == s) db.phases

unfoldable pub incomplete_count : ℕ → Db → ℕ
incomplete_count s db = count (λ p. p.sub_project_id == s && not (is_completed p.status)) db.phases

abbrev pub ended : Env → SubProjectStatus → SubProject → SubProject
ended env status s = record s {
  status = status;
  actual_end_date = some env.today;
  closed_at = some env.now;
  updated_at = env.now;
}

-- A closed sub project without a time gets one.
abbrev pub stamped : Env → Option ℕ → SubProject → SubProject
stamped env none s = record s { closed_at = some env.now; updated_at = env.now }
stamped env (some t) s = s

abbrev pub audit_sub_project : Text → User → SubProject → Db → Db
audit_sub_project action actor s db = record_audit actor action (codes "sub_project") s.id db

abbrev pub close_open : Env → User → SubProject → Db → Result (Db × SubProject)
close_open env actor s db = do
  guard (is_started_project s.status || is_completed_project s.status)
      (business (sub_project_status s.status))
  guard (phase_count s.id db == 6 && not (ltb 0 (incomplete_count s.id db)))
      (business (phases_incomplete (phase_count s.id db) (incomplete_count s.id db)))
  ok (
    audit_sub_project (codes "sub_project.close") actor s
        (write_sub_project (ended env SubProjectStatus.closed s) db),
    ended env SubProjectStatus.closed s,
  )

abbrev pub close_by_status :
    Env → User → SubProject → SubProjectStatus → Db → Result (Db × SubProject)
close_by_status env actor s SubProjectStatus.closed db =
    ok (write_sub_project (stamped env s.closed_at s) db, stamped env s.closed_at s)
close_by_status env actor s _ db = close_open env actor s db

unfoldable pub close_sub_project : Env → User → ℕ → Db → Result (Db × SubProject)
close_sub_project env actor i db = do
  guard (is_dept_manager actor.role) permission_denied
  s ← existing_sub_project i db
  close_by_status env actor s s.status db

unfoldable pub terminate_sub_project : Env → User → ℕ → Db → Result (Db × SubProject)
terminate_sub_project env actor i db = do
  guard (is_admin actor.role || is_dept_manager actor.role) permission_denied
  s ← existing_sub_project i db
  guard (not (is_ended_project s.status)) (business (sub_project_status s.status))
  ok (
    audit_sub_project (codes "sub_project.terminate") actor s
        (write_sub_project (ended env SubProjectStatus.terminated s) db),
    ended env SubProjectStatus.terminated s,
  )
