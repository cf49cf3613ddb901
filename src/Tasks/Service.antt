-- ===== src/Tasks/Service.antt =====
-- `TaskService` of backend/app/services/tasks.py.
use project_lifecycle_manage.Base.{
  ℕ, suc, ◌==◌, Bool, true, false, not, ◌&&◌, ◌||◌, Option, none, some, List, [], ◌∷◌, ◌++◌, Text,
  codes, find?, filter, all, any, map, put, is_some, if◌then◌else◌,
}
use project_lifecycle_manage.Model.{
  Db, Env, User, SubProject, Phase, Task, TaskExecutor, TaskStatus, Notice, is_admin,
  is_proj_leader,
}
use project_lifecycle_manage.Errors.{
  Result, ok, permission_denied, validation_failed, executor_required, executors_not_unique,
  not_found, no_phase, no_task, business, executor_not_member, guard, from_option, ◌>>=◌, ◌>>◌,
}
use project_lifecycle_manage.Queries.{existing_sub_project, get_phase, get_member, contains, send}
use project_lifecycle_manage.Numbering.{next_sequence, format_number, task_separator}

unfoldable pub get_task : ℕ → Db → Option Task
get_task i db = find? (λ t. t.id == i) db.tasks

abbrev pub is_completed_task : TaskStatus → Bool
is_completed_task TaskStatus.completed = true
is_completed_task _ = false

abbrev pub is_overdue_task : TaskStatus → Bool
is_overdue_task TaskStatus.overdue = true
is_overdue_task _ = false

abbrev pub is_running_task : TaskStatus → Bool
is_running_task TaskStatus.in_progress = true
is_running_task _ = false

abbrev pub some_executors : List TaskExecutor → Bool
some_executors [] = false
some_executors (e ∷ es) = true

unfoldable pub aggregate_task_status : List TaskExecutor → TaskStatus
aggregate_task_status executors =
    if some_executors executors && all (λ e. is_completed_task e.status) executors
    then TaskStatus.completed
    else if any (λ e. is_overdue_task e.status) executors
    then TaskStatus.overdue
    else if any (λ e. is_running_task e.status) executors
    then TaskStatus.in_progress
    else TaskStatus.not_started

unfoldable pub next_task_sequence : ℕ → Db → ℕ
next_task_sequence sub_project_id db =
    next_sequence task_separator
      (map (λ t. t.task_no) (filter (λ t. t.sub_project_id == sub_project_id) db.tasks))

abbrev pub can_assign : User → SubProject → Bool
can_assign actor sub_project =
    is_admin actor.role || (is_proj_leader actor.role && sub_project.manager_id == actor.id)

pub record TaskExecutorAssign : Type 0 where
  pub user_id : ℕ
  pub plan_end_date : ℕ

-- The loop of `_validate_assignments`; `seen` holds the users so far.
unfoldable pub validate_from : List ℕ → ℕ → List TaskExecutorAssign → Db → Result (Unit {0})
validate_from seen sub_project_id [] db = ok tt
validate_from seen sub_project_id (a ∷ rest) db = do
  guard (not (contains a.user_id seen)) (validation_failed executors_not_unique)
  guard (is_some (get_member sub_project_id a.user_id db))
      (business (executor_not_member a.user_id))
  validate_from (a.user_id ∷ seen) sub_project_id rest db

abbrev pub some_assignments : List TaskExecutorAssign → Bool
some_assignments [] = false
some_assignments (a ∷ rest) = true

unfoldable pub validate_assignments : ℕ → List TaskExecutorAssign → Db → Result (Unit {0})
validate_assignments sub_project_id assignments db = do
  guard (some_assignments assignments) (validation_failed executor_required)
  validate_from [] sub_project_id assignments db

unfoldable pub new_executor : Env → ℕ → ℕ → TaskExecutorAssign → TaskExecutor
new_executor env k task_id a = record {
  id = env.uuid k;
  task_id = task_id;
  user_id = a.user_id;
  plan_end_date = a.plan_end_date;
  actual_end_date = none;
  status = TaskStatus.in_progress;
  created_at = env.now;
  updated_at = env.now;
}

unfoldable pub new_executors : Env → ℕ → ℕ → List TaskExecutorAssign → List TaskExecutor
new_executors env k task_id [] = []
new_executors env k task_id (a ∷ rest) =
    new_executor env k task_id a ∷ new_executors env (suc k) task_id rest

-- `_send_task_assigned_notifications`
abbrev some_receivers : List ℕ → Bool
some_receivers [] = false
some_receivers (r ∷ rs) = true

unfoldable pub notify_assigned : Task → List ℕ → Db → Db
notify_assigned task receivers db =
    let notice : Notice = record {
      scenario = codes "task_assigned";
      receivers = receivers;
      source_id = task.id;
    } in
    if some_receivers receivers then send notice db else db

-- The schemas have stripped the name, which is not empty.
pub record TaskCreate : Type 0 where
  pub sub_project_id : ℕ
  pub phase_id : ℕ
  pub name : Text
  pub plan_end_date : ℕ
  pub executors : List TaskExecutorAssign

unfoldable pub new_task : Env → SubProject → Phase → TaskCreate → Db → Task
new_task env sub_project phase payload db =
    let executors = new_executors env 1 (env.uuid 0) payload.executors in
    record {
      id = env.uuid 0;
      task_no =
          format_number task_separator sub_project.project_no
            (next_task_sequence sub_project.id db);
      sub_project_id = sub_project.id;
      phase_id = phase.id;
      name = payload.name;
      plan_end_date = payload.plan_end_date;
      status = aggregate_task_status executors;
      executors = executors;
      created_at = env.now;
      updated_at = env.now;
    }

abbrev pub add_task : Task → Db → Db
add_task task db = record db { tasks = db.tasks ++ task ∷ [] }

unfoldable pub create_task : Env → User → TaskCreate → Db → Result (Db × Task)
create_task env actor payload db = do
  sub_project ← existing_sub_project payload.sub_project_id db
  phase ← from_option (get_phase payload.phase_id db) (not_found no_phase)
  guard (phase.sub_project_id == sub_project.id) (not_found no_phase)
  guard (can_assign actor sub_project) permission_denied
  validate_assignments sub_project.id payload.executors db
  let task = new_task env sub_project phase payload db
  ok (notify_assigned task (map (λ a. a.user_id) payload.executors) (add_task task db), task)

abbrev pub save_task : Task → Db → Db
save_task task db = record db { tasks = put (λ t. t.id == task.id) task db.tasks }

-- The first executor who is the user is completed.
abbrev pub completed_executor : Env → TaskExecutor → TaskExecutor
completed_executor env e = record e {
  status = TaskStatus.completed;
  actual_end_date = some env.today;
  updated_at = env.now;
}

unfoldable pub complete_executor : Env → ℕ → List TaskExecutor → List TaskExecutor
complete_executor env user_id [] = []
complete_executor env user_id (e ∷ es) =
    let rest = complete_executor env user_id es in
    if e.user_id == user_id then completed_executor env e ∷ es else e ∷ rest

abbrev pub with_completed : Env → User → Task → Task
with_completed env actor task =
    let executors = complete_executor env actor.id task.executors in
    record task {
      executors = executors;
      status = aggregate_task_status executors;
      updated_at = env.now;
    }

unfoldable pub complete_task : Env → User → ℕ → Db → Result (Db × Task)
complete_task env actor task_id db = do
  task ← from_option (get_task task_id db) (not_found no_task)
  executor ← from_option (find? (λ e. e.user_id == actor.id) task.executors) permission_denied
  if is_completed_task executor.status
      then ok (db, task)
      else ok (save_task (with_completed env actor task) db, with_completed env actor task)
