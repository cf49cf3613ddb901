-- ===== src/Tests/Assignments.antt =====
-- The leader takes a task for themself and completes it.
use project_lifecycle_manage.Base.{
  ◌≡◌, refl, some, [], ◌∷◌, ◌++◌, true, codes, all, find?, ◌==◌, any, ℕ, Bool, not, ◌&&◌, text_eq,
  pos, distinct,
}
use project_lifecycle_manage.Model.{Db, SubProject, Phase, Task, TaskExecutor, TaskStatus}
use project_lifecycle_manage.Errors.{ok}
use project_lifecycle_manage.Queries.{get_phase, get_sub_project, contains, get_member, send}
use project_lifecycle_manage.Tasks.Service.{
  TaskCreate, create_task, complete_task, new_task, get_task, can_assign, some_assignments,
  is_completed_task, validate_assignments, validate_from, notify_assigned, aggregate_task_status,
  new_executors, new_executor, next_task_sequence,
}
use project_lifecycle_manage.Tasks.Status.{
  is_aggregated, are_members, create_task_effect, complete_task_effect,
}
use project_lifecycle_manage.Numbering.{sequence_of, task_separator}
use project_lifecycle_manage.Tasks.Reassign.{TaskUpdate, update_task, reassign}
use project_lifecycle_manage.Tasks.Rows.{users_once}
use project_lifecycle_manage.Tasks.Numbers.{create_task_number}
use project_lifecycle_manage.Tasks.Update.{update_task_effect}
use project_lifecycle_manage.Base.{none, List, map}
use project_lifecycle_manage.Tasks.Service.{TaskExecutorAssign}
use project_lifecycle_manage.Tests.Data.{value, env, leader}
use project_lifecycle_manage.Tests.Acceptances.{accepting_db}

abbrev payload : TaskCreate
payload = record {
  sub_project_id = 9;
  phase_id = 14;
  name = codes "measure";
  plan_end_date = 20;
  executors = record { user_id = 1; plan_end_date = 20 } ∷ [];
}

abbrev no_task_yet : Task
no_task_yet = record {
  id = 0;
  task_no = [];
  sub_project_id = 0;
  phase_id = 0;
  name = [];
  plan_end_date = 0;
  status = TaskStatus.not_started;
  executors = [];
  created_at = 0;
  updated_at = 0;
}

abbrev assigned : Db × Task
assigned = value (accepting_db, no_task_yet) (create_task env leader payload accepting_db)

assigns : create_task env leader payload accepting_db ≡ ok assigned
unfolding create_task get_sub_project find? get_phase validate_assignments validate_from contains
    get_member
assigns = refl

none_aggregated : all is_aggregated accepting_db.tasks ≡ true
unfolding all
none_aggregated = refl

create_task_effect_example :
    (sub : SubProject) × (phase : Phase) × (get_sub_project 9 accepting_db ≡ some sub)
    × (get_phase 14 accepting_db ≡ some phase)
    × (phase.sub_project_id ≡ sub.id)
    × (can_assign leader sub ≡ true)
    × (some_assignments payload.executors ≡ true)
    × (are_members sub.id accepting_db payload.executors ≡ true)
    × (assigned.1 ≡ new_task env sub phase payload accepting_db)
    × (assigned.0.tasks ≡ accepting_db.tasks ++ assigned.1 ∷ [])
    × (all is_aggregated assigned.0.tasks ≡ true)
create_task_effect_example =
    create_task_effect env leader payload accepting_db assigns none_aggregated

create_task_number_example :
    (sequence_of task_separator assigned.1.task_no
      ≡ some (pos (next_task_sequence assigned.1.sub_project_id accepting_db)))
    × (all
          (λ t.
            not (
              t.sub_project_id == assigned.1.sub_project_id
              && text_eq t.task_no assigned.1.task_no))
          accepting_db.tasks
        ≡ true)
create_task_number_example = create_task_number env leader payload accepting_db assigns

one_aggregated : all is_aggregated assigned.0.tasks ≡ true
unfolding all create_task get_sub_project find? get_phase validate_assignments validate_from
    contains get_member notify_assigned send new_task aggregate_task_status new_executors
    new_executor any
one_aggregated = refl

abbrev done : Db × Task
done = value assigned (complete_task env leader 1000 assigned.0)

completes : complete_task env leader 1000 assigned.0 ≡ ok done
unfolding complete_task create_task get_task find? get_sub_project get_phase validate_assignments
    validate_from contains get_member notify_assigned send new_task new_executors new_executor
completes = refl

complete_task_effect_example :
    (get_task 1000 done.0 ≡ some done.1)
    × ((e : TaskExecutor) × (find? (λ x. x.user_id == 1) done.1.executors ≡ some e)
        × (is_completed_task e.status ≡ true))
    × (is_completed_task done.1.status ≡ all (λ x. is_completed_task x.status) done.1.executors)
    × (all is_aggregated done.0.tasks ≡ true)
complete_task_effect_example =
    complete_task_effect env leader 1000 assigned.0 completes one_aggregated

abbrev change : TaskUpdate
change = record {
  name = some (codes "measure again");
  plan_end_date = none;
  executors = some (record { user_id = 1; plan_end_date = 30 } ∷ []);
}

abbrev changed : Db × Task
changed = value assigned (update_task env leader 1000 change assigned.0)

changes : update_task env leader 1000 change assigned.0 ≡ ok changed
unfolding update_task create_task get_task find? get_sub_project get_phase validate_assignments
    validate_from contains get_member notify_assigned send new_task reassign
changes = refl

users_apart : all users_once assigned.0.tasks ≡ true
unfolding all create_task get_sub_project find? get_phase validate_assignments validate_from
    contains get_member notify_assigned send distinct new_task new_executors
users_apart = refl

update_task_effect_example :
    (task : Task) × (sub : SubProject) × (row : Task) × (get_task 1000 assigned.0 ≡ some task)
    × (get_sub_project task.sub_project_id assigned.0 ≡ some sub)
    × (can_assign leader sub ≡ true)
    × (get_task 1000 changed.0 ≡ some row)
    × (row ≡ record changed.1 { executors = row.executors })
    × ((Q : ℕ → TaskStatus → Bool)
        → any (λ e. Q e.user_id e.status) row.executors
          ≡ any (λ e. Q e.user_id e.status) changed.1.executors)
    × (change.executors ≡ none → changed.1.executors ≡ task.executors)
    × ((xs : List TaskExecutorAssign)
        → change.executors ≡ some xs
        → (are_members sub.id assigned.0 xs ≡ true)
          × (map (λ e. e.user_id) changed.1.executors ≡ map (λ a. a.user_id) xs))
    × (all is_aggregated changed.0.tasks ≡ true)
update_task_effect_example =
    update_task_effect env leader 1000 change assigned.0 changes one_aggregated users_apart
