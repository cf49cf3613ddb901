-- ===== src/Tasks/Numbers.antt =====
-- The number that `create_task` of backend/app/services/tasks.py gives a task.
use project_lifecycle_manage.Base.{
  ◌==◌, Bool, true, false, not, ◌&&◌, List, [], ◌∷◌, ◌≡◌, refl, sym, arith, some, pos, Text,
  text_eq, any, all, filter, map,
}
use project_lifecycle_manage.Model.{Db, Env, User, Task}
use project_lifecycle_manage.Errors.{
  ok, guard->>-eq-ok, >>=-eq-ok, from_option->>=-eq-ok, ok-injective, permission_denied, not_found,
  no_phase,
}
use project_lifecycle_manage.Queries.{get_phase, get_sub_project}
use project_lifecycle_manage.Numbering.{
  sequence_of, task_separator, task-after_last, sequence_of-format, next_number_new,
}
use project_lifecycle_manage.Tasks.Service.{
  can_assign, validate_assignments, TaskCreate, new_task, next_task_sequence, create_task,
}

none-such :
    {A : Type 0} (q : A → Bool) (f : A → Text) (p : Text → Bool) (xs : List A)
    → any p (map f (filter q xs)) ≡ false
    → all (λ x. not (q x && p (f x))) xs ≡ true
unfolding any all filter
none-such q f p [] h = refl
none-such q f p (x ∷ xs) h = ground (arith, none-such q f p xs)

-- The number of a task that was created is read back to the next sequence of its sub project, and no
-- task of that sub project had the number before.
pub create_task_number :
    (env : Env) (actor : User) (payload : TaskCreate) (db : Db) {r : Db × Task}
    → create_task env actor payload db ≡ ok r
    → (sequence_of task_separator r.1.task_no
        ≡ some (pos (next_task_sequence r.1.sub_project_id db)))
      × (all
            (λ t. not (t.sub_project_id == r.1.sub_project_id && text_eq t.task_no r.1.task_no))
            db.tasks
          ≡ true)
unfolding create_task new_task next_task_sequence
create_task_number env actor payload db h =
    let (sub, hs, h1) = from_option->>=-eq-ok (get_sub_project payload.sub_project_id db) _ _ h in
    let (phase, hp, h2) = from_option->>=-eq-ok (get_phase payload.phase_id db) _ _ h1 in
    let (own, h3) = guard->>-eq-ok (phase.sub_project_id == sub.id) (not_found no_phase) _ h2 in
    let (allowed, h4) = guard->>-eq-ok (can_assign actor sub) permission_denied _ h3 in
    let (u, valid, h5) = >>=-eq-ok (validate_assignments sub.id payload.executors db) _ h4 in
    rw (sym (ok-injective h5)) (
      sequence_of-format task_separator task-after_last sub.project_no _,
      none-such (λ t. t.sub_project_id == sub.id) (λ t. t.task_no) _ db.tasks
          (next_number_new task_separator task-after_last sub.project_no
            (map (λ t. t.task_no) (filter (λ t. t.sub_project_id == sub.id) db.tasks))),
    )
