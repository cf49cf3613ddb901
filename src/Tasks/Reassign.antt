-- ===== src/Tasks/Reassign.antt =====
-- `TaskService.update_task` of backend/app/services/tasks.py, with the rows of task_executors that it
-- leaves (backend/app/models/tasks.py).
use project_lifecycle_manage.Base.{
  ℕ, suc, ◌==◌, Bool, not, Option, none, some, List, [], ◌∷◌, ◌++◌, Text, find?, find_last?, filter,
  map, any, is_some, if◌then◌else◌,
}
use project_lifecycle_manage.Model.{Db, Env, User, SubProject, Task, TaskExecutor}
use project_lifecycle_manage.Errors.{
  Result, ok, permission_denied, not_found, no_task, guard, from_option, ◌>>=◌, ◌>>◌,
}
use project_lifecycle_manage.Queries.{existing_sub_project}
use project_lifecycle_manage.Tasks.Service.{
  get_task, aggregate_task_status, can_assign, TaskExecutorAssign, validate_assignments,
  new_executor, notify_assigned, save_task,
}

pub record TaskUpdate : Type 0 where
  pub name : Option Text
  pub plan_end_date : Option ℕ
  pub executors : Option (List TaskExecutorAssign)

abbrev pub or_else {ℓ} : {A : Type ℓ} → Option A → A → A
or_else none d = d
or_else (some a) d = a

-- `existing_by_user.get(user_id)`
abbrev pub existing_executor : Task → TaskExecutorAssign → Option TaskExecutor
existing_executor task a = find_last? (λ e. e.user_id == a.user_id) task.executors

abbrev pub assigned_executor :
    Env → ℕ → Task → TaskExecutorAssign → Option TaskExecutor → TaskExecutor
assigned_executor env k task a none = new_executor env k task.id a
assigned_executor env k task a (some e) = record e {
  plan_end_date = a.plan_end_date;
  updated_at = env.now;
}

unfoldable pub updated_executors : Env → ℕ → Task → List TaskExecutorAssign → List TaskExecutor
updated_executors env k task [] = []
updated_executors env k task (a ∷ rest) =
    assigned_executor env k task a (existing_executor task a)
    ∷ updated_executors env (suc k) task rest

-- The users who had no part in the task.
unfoldable pub new_receiver_ids : Task → Option (List TaskExecutorAssign) → List ℕ
new_receiver_ids task none = []
new_receiver_ids task (some assignments) =
    map (λ a. a.user_id) (filter (λ a. not (is_some (existing_executor task a))) assignments)

unfoldable pub reassign :
    Env → SubProject → Task → Option (List TaskExecutorAssign) → Db → Result Task
reassign env sub_project task none db = ok task
reassign env sub_project task (some assignments) db = do
  validate_assignments sub_project.id assignments db
  let executors = updated_executors env 0 task assignments
  ok (record task { executors = executors; status = aggregate_task_status executors })

abbrev pub with_fields : TaskUpdate → Task → Task
with_fields payload task = record task {
  name = or_else payload.name task.name;
  plan_end_date = or_else payload.plan_end_date task.plan_end_date;
}

abbrev pub touched : Env → Task → Task
touched env task = record task { updated_at = env.now }

-- A row that stays, with what its assignment says.
abbrev pub reassigned_row : Env → TaskExecutor → Option TaskExecutorAssign → TaskExecutor
reassigned_row env e none = e
reassigned_row env e (some a) = record e { plan_end_date = a.plan_end_date; updated_at = env.now }

abbrev pub is_assigned : List TaskExecutorAssign → TaskExecutor → Bool
is_assigned assignments e = any (λ a. a.user_id == e.user_id) assignments

-- The rows of executors that are assigned again keep their places.
unfoldable pub kept_executors :
    Env → List TaskExecutorAssign → List TaskExecutor → List TaskExecutor
kept_executors env assignments [] = []
kept_executors env assignments (e ∷ es) =
    let rest = kept_executors env assignments es in
    if is_assigned assignments e
    then reassigned_row env e (find? (λ a. a.user_id == e.user_id) assignments) ∷ rest
    else rest

-- The rows that `add_executor` inserts; the draws are those of `updated_executors`.
unfoldable pub added_executors : Env → ℕ → Task → List TaskExecutorAssign → List TaskExecutor
added_executors env k task [] = []
added_executors env k task (a ∷ rest) =
    let later = added_executors env (suc k) task rest in
    if is_some (existing_executor task a) then later else new_executor env k task.id a ∷ later

-- The rows of the task after the commit, which a later load returns in this order.
unfoldable pub stored_executors : Env → Task → Option (List TaskExecutorAssign) → List TaskExecutor
stored_executors env task none = task.executors
stored_executors env task (some assignments) =
    kept_executors env assignments task.executors ++ added_executors env 0 task assignments

abbrev pub stored_task : Env → Task → TaskUpdate → Task → Task
stored_task env task payload updated = record updated {
  executors = stored_executors env task payload.executors;
}

unfoldable pub update_task : Env → User → ℕ → TaskUpdate → Db → Result (Db × Task)
update_task env actor task_id payload db = do
  task ← from_option (get_task task_id db) (not_found no_task)
  sub_project ← existing_sub_project task.sub_project_id db
  guard (can_assign actor sub_project) permission_denied
  reassigned ← reassign env sub_project (with_fields payload task) payload.executors db
  ok (
    notify_assigned (touched env reassigned) (new_receiver_ids task payload.executors) (
        save_task (stored_task env (with_fields payload task) payload (touched env reassigned)) db),
    touched env reassigned,
  )
