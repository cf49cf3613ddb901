-- ===== src/Tasks/Update.antt =====
-- What `update_task` of backend/app/services/tasks.py returns and leaves.
use project_lifecycle_manage.Base.{
  ℕ, suc, ◌==◌, Bool, true, Option, none, some, List, [], ◌∷◌, ◌≡◌, refl, sym, ap, subst, ◌∙◌,
  arith, any, find?, all, all-put, find?-all, find?-put, find?-sound, map, put, ==_iff, inl, inr,
  Option-cases, some-injective,
}
use project_lifecycle_manage.Model.{Db, Env, User, SubProject, Task, TaskExecutor, TaskStatus}
use project_lifecycle_manage.Errors.{
  ok, guard->>-eq-ok, >>=-eq-ok, from_option->>=-eq-ok, ok-injective, permission_denied, not_found,
  no_task,
}
use project_lifecycle_manage.Queries.{get_sub_project}
use project_lifecycle_manage.Tasks.Service.{
  get_task, aggregate_task_status, can_assign, TaskExecutorAssign, validate_assignments,
  new_executor, save_task,
}
use project_lifecycle_manage.Tasks.Reassign.{
  TaskUpdate, existing_executor, updated_executors, new_receiver_ids, reassign, with_fields,
  touched, stored_executors, stored_task, update_task,
}
use project_lifecycle_manage.Tasks.Rows.{
  users_once, find_last?-sound, stored-any, aggregate-any, holds,
}
use project_lifecycle_manage.Tasks.Status.{
  is_aggregated, status_eq, status_eq_refl, are_members, validate_assignments-all, notified,
}

updated_executors-users :
    (env : Env) (k : ℕ) (task : Task) (xs : List TaskExecutorAssign)
    → map (λ e. e.user_id) (updated_executors env k task xs) ≡ map (λ a. a.user_id) xs
unfolding updated_executors new_executor
updated_executors-users env k task [] = refl
updated_executors-users env k task (a ∷ rest) =
    let later = updated_executors-users env (suc k) task rest in
    elim (Option-cases (existing_executor task a)) [
      | inl n ↦ rw n (ap (λ t. a.user_id ∷ t) later)
      | inr (e, s) ↦
          let same =
            (==_iff e.user_id a.user_id).0
              (find_last?-sound (λ x. x.user_id == a.user_id) task.executors s) in
          rw s (ap (λ t. e.user_id ∷ t) later ∙ ap (λ i. i ∷ map (λ x. x.user_id) rest) same)
    ]

-- What `reassign` makes of a task.
record IsReassigned (env : Env) (sub : SubProject) (old : Task)
    (assignments : Option (List TaskExecutorAssign)) (db : Db) (t : Task) : Type 0 where
  same_id : t.id ≡ old.id
  aggregated : is_aggregated old ≡ true → is_aggregated t ≡ true
  rows :
      users_once old ≡ true
      → (Q : ℕ → TaskStatus → Bool)
      → any (holds Q) (stored_executors env old assignments) ≡ any (holds Q) t.executors
  kept : assignments ≡ none → t.executors ≡ old.executors
  users :
      (xs : List TaskExecutorAssign)
      → assignments ≡ some xs
      → (are_members sub.id db xs ≡ true)
        × (map (λ e. e.user_id) t.executors ≡ map (λ a. a.user_id) xs)

reassign-IsReassigned :
    (env : Env) (sub : SubProject) (old : Task) (o : Option (List TaskExecutorAssign)) (db : Db)
    {t : Task}
    → reassign env sub old o db ≡ ok t
    → IsReassigned env sub old o db t
unfolding reassign stored_executors
reassign-IsReassigned env sub old none db h =
    subst (IsReassigned env sub old none db) (ok-injective h) (record {
      same_id = refl;
      aggregated = λ a. a;
      rows = λ once Q. refl;
      kept = λ e. refl;
      users = λ xs e. ground arith;
    })
reassign-IsReassigned env sub old (some ys) db h =
    let (u, valid, h1) = >>=-eq-ok (validate_assignments sub.id ys db) _ h in
    let (present, members) = validate_assignments-all sub.id ys db valid in
    subst (IsReassigned env sub old (some ys) db) (ok-injective h1) (record {
      same_id = refl;
      aggregated = λ a. status_eq_refl (aggregate_task_status (updated_executors env 0 old ys));
      rows = λ once Q. stored-any Q env old ys once;
      kept = λ e. ground arith;
      users = λ xs e.
          subst
            (λ zs.
              (are_members sub.id db zs ≡ true)
              × (map (λ x. x.user_id) (updated_executors env 0 old ys) ≡ map (λ a. a.user_id) zs))
            (some-injective e) (members, updated_executors-users env 0 old ys);
    })

-- The rows of a task whose status agrees with its executors agree with it too.
stored-is_aggregated :
    (t : Task) (es : List TaskExecutor)
    → ((Q : ℕ → TaskStatus → Bool) → any (holds Q) es ≡ any (holds Q) t.executors)
    → is_aggregated t ≡ true
    → is_aggregated (record t { executors = es }) ≡ true
stored-is_aggregated t es same h =
    subst (λ s. status_eq t.status s ≡ true) (sym (aggregate-any es t.executors same)) h

-- On tasks whose status is the one that their executors add up to, and with one executor row for a user
-- (as the unique constraint demands), an update that returns came from the administrator or the leader.
-- The returned executors are the users that were assigned, in that order, all of them members, or the
-- old ones where none were assigned. The task is found as it was returned, with the same executors: the
-- rows may stand in another order, but every test of users and statuses finds some row exactly if it
-- finds some returned executor. The relation of status and executors is kept in every task.
pub update_task_effect :
    (env : Env) (actor : User) (task_id : ℕ) (payload : TaskUpdate) (db : Db) {r : Db × Task}
    → update_task env actor task_id payload db ≡ ok r
    → all is_aggregated db.tasks ≡ true
    → all users_once db.tasks ≡ true
    → (task : Task) × (sub : SubProject) × (row : Task) × (get_task task_id db ≡ some task)
      × (get_sub_project task.sub_project_id db ≡ some sub)
      × (can_assign actor sub ≡ true)
      × (get_task task_id r.0 ≡ some row)
      × (row ≡ record r.1 { executors = row.executors })
      × ((Q : ℕ → TaskStatus → Bool)
          → any (λ e. Q e.user_id e.status) row.executors
            ≡ any (λ e. Q e.user_id e.status) r.1.executors)
      × (payload.executors ≡ none → r.1.executors ≡ task.executors)
      × ((xs : List TaskExecutorAssign)
          → payload.executors ≡ some xs
          → (are_members sub.id db xs ≡ true)
            × (map (λ e. e.user_id) r.1.executors ≡ map (λ a. a.user_id) xs))
      × (all is_aggregated r.0.tasks ≡ true)
unfolding update_task get_task
update_task_effect env actor task_id payload db {r} h keeps once =
    let (task, found, h1) = from_option->>=-eq-ok (get_task task_id db) (not_found no_task) _ h in
    let (sub, scope, h2) = from_option->>=-eq-ok (get_sub_project task.sub_project_id db) _ _ h1 in
    let (allowed, h3) = guard->>-eq-ok (can_assign actor sub) permission_denied _ h2 in
    let (t, made, h4) =
      >>=-eq-ok (reassign env sub (with_fields payload task) payload.executors db) _ h3 in
    let q = reassign-IsReassigned env sub (with_fields payload task) payload.executors db made in
    let row = stored_task env (with_fields payload task) payload (touched env t) in
    let rows =
      notified (touched env t) (new_receiver_ids task payload.executors) (save_task row db) in
    let before = find?-all (λ x. x.id == task_id) is_aggregated db.tasks found keeps in
    let mine = q.rows (find?-all (λ x. x.id == task_id) users_once db.tasks found once) in
    let same = q.same_id ∙ (==_iff _ _).0 (find?-sound (λ x. x.id == task_id) db.tasks found) in
    rw (sym (ok-injective h4)) (
      task,
      sub,
      row,
      found,
      scope,
      allowed,
      rw rows (
          subst (λ i. find? (λ x. x.id == task_id) (put (λ x. x.id == i) row db.tasks) ≡ some row)
            (sym same) (find?-put (λ x. x.id == task_id) db.tasks row found ((==_iff _ _).1 same))),
      refl,
      mine,
      q.kept,
      q.users,
      rw rows (
          all-put is_aggregated (λ x. x.id == t.id) row db.tasks keeps
            (stored-is_aggregated (touched env t) row.executors mine (q.aggregated before))),
    )
