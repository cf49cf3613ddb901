-- ===== src/Tasks/Status.antt =====
-- The status of a task (backend/app/services/tasks.py) follows from its executors.
use project_lifecycle_manage.Base.{
  ℕ, ◌==◌, Bool, true, false, not, some, List, [], ◌∷◌, ◌++◌, ◌≡◌, refl, sym, ap, subst, ◌∙◌, arith,
  all, find?, all-put, all-append_one, is_some, map, Bool-cases, inl, inr, if◌then◌else◌, ==_iff,
  find?-sound, find?-put, find?-all, put, some-injective,
}
use project_lifecycle_manage.Model.{
  Db, Env, User, SubProject, Phase, Task, TaskExecutor, TaskStatus,
}
use project_lifecycle_manage.Errors.{
  ok, guard->>-eq-ok, >>=-eq-ok, from_option->>=-eq-ok, ok-injective, permission_denied, not_found,
  no_phase, no_task, business, executor_not_member, validation_failed, executors_not_unique,
  executor_required,
}
use project_lifecycle_manage.Queries.{get_phase, get_sub_project, get_member, send, contains}
use project_lifecycle_manage.Tasks.Service.{
  get_task, is_completed_task, aggregate_task_status, can_assign, TaskExecutorAssign, validate_from,
  some_assignments, validate_assignments, notify_assigned, TaskCreate, new_task, add_task,
  create_task, save_task, completed_executor, complete_executor, with_completed, complete_task,
}

abbrev pub status_eq : TaskStatus → TaskStatus → Bool
status_eq TaskStatus.not_started TaskStatus.not_started = true
status_eq TaskStatus.in_progress TaskStatus.in_progress = true
status_eq TaskStatus.overdue TaskStatus.overdue = true
status_eq TaskStatus.completed TaskStatus.completed = true
status_eq _ _ = false

pub status_eq_refl : (s : TaskStatus) → status_eq s s ≡ true
status_eq_refl TaskStatus.not_started = refl
status_eq_refl TaskStatus.in_progress = refl
status_eq_refl TaskStatus.overdue = refl
status_eq_refl TaskStatus.completed = refl

-- The status is the one that the executors add up to.
abbrev pub is_aggregated : Task → Bool
is_aggregated t = status_eq t.status (aggregate_task_status t.executors)

-- Completed executors make a completed task, and nothing else does.
aggregate-completed :
    (e : TaskExecutor) (es : List TaskExecutor)
    → is_completed_task (aggregate_task_status (e ∷ es))
      ≡ all (λ x. is_completed_task x.status) (e ∷ es)
unfolding aggregate_task_status
aggregate-completed e es = ground arith

-- The assignments name members, each user once.
abbrev pub are_members : ℕ → Db → List TaskExecutorAssign → Bool
are_members s db = all (λ a. is_some (get_member s a.user_id db))

validate_from-all :
    (seen : List ℕ) (s : ℕ) (xs : List TaskExecutorAssign) (db : Db)
    → validate_from seen s xs db ≡ ok tt
    → are_members s db xs ≡ true
unfolding validate_from all
validate_from-all seen s [] db h = refl
validate_from-all seen s (a ∷ xs) db h =
    let (new, h1) =
      guard->>-eq-ok (not (contains a.user_id seen)) (validation_failed executors_not_unique) _ h in
    let (member, h2) =
      guard->>-eq-ok (is_some (get_member s a.user_id db))
        (business (executor_not_member a.user_id)) _ h1 in
    ground (arith, member, validate_from-all (a.user_id ∷ seen) s xs db h2)

pub validate_assignments-all :
    (s : ℕ) (xs : List TaskExecutorAssign) (db : Db)
    → validate_assignments s xs db ≡ ok tt
    → (some_assignments xs ≡ true) × (are_members s db xs ≡ true)
unfolding validate_assignments
validate_assignments-all s xs db h =
    let (present, valid) =
      guard->>-eq-ok (some_assignments xs) (validation_failed executor_required) _ h in
    (present, validate_from-all [] s xs db valid)

pub notified :
    (task : Task) (receivers : List ℕ) (db : Db)
    → (notify_assigned task receivers db).tasks ≡ db.tasks
unfolding notify_assigned send
notified task [] db = refl
notified task (x ∷ xs) db = refl

-- A creation that returns came from the administrator or the leader, for a phase of that sub project
-- and for executors who are members of it, at least one; and it keeps that the status of every task is
-- the one that its executors add up to.
pub create_task_effect :
    (env : Env) (actor : User) (payload : TaskCreate) (db : Db) {r : Db × Task}
    → create_task env actor payload db ≡ ok r
    → all is_aggregated db.tasks ≡ true
    → (sub : SubProject) × (phase : Phase) × (get_sub_project payload.sub_project_id db ≡ some sub)
      × (get_phase payload.phase_id db ≡ some phase)
      × (phase.sub_project_id ≡ sub.id)
      × (can_assign actor sub ≡ true)
      × (some_assignments payload.executors ≡ true)
      × (are_members sub.id db payload.executors ≡ true)
      × (r.1 ≡ new_task env sub phase payload db)
      × (r.0.tasks ≡ db.tasks ++ r.1 ∷ [])
      × (all is_aggregated r.0.tasks ≡ true)
unfolding create_task validate_assignments notify_assigned send new_task
create_task_effect env actor payload db h keeps =
    let (sub, hs, h1) = from_option->>=-eq-ok (get_sub_project payload.sub_project_id db) _ _ h in
    let (phase, hp, h2) = from_option->>=-eq-ok (get_phase payload.phase_id db) _ _ h1 in
    let (own, h3) = guard->>-eq-ok (phase.sub_project_id == sub.id) (not_found no_phase) _ h2 in
    let (allowed, h4) = guard->>-eq-ok (can_assign actor sub) permission_denied _ h3 in
    let (u, valid, h5) = >>=-eq-ok (validate_assignments sub.id payload.executors db) _ h4 in
    let (present, members) = validate_assignments-all sub.id payload.executors db valid in
    let task = new_task env sub phase payload db in
    let rows = notified task (map (λ a. a.user_id) payload.executors) (add_task task db) in
    rw (sym (ok-injective h5)) (
      sub,
      phase,
      hs,
      hp,
      (==_iff _ _).0 own,
      allowed,
      present,
      members,
      refl,
      rows,
      rw rows (all-append_one is_aggregated db.tasks task keeps (status_eq_refl task.status)),
    )

status_eq-completed :
    (s t : TaskStatus) → status_eq s t ≡ true → is_completed_task s ≡ is_completed_task t
status_eq-completed s t h = ground arith

-- A found executor is there, and so the status tells whether all are completed.
status-all :
    (p : TaskExecutor → Bool) (s : TaskStatus) (es : List TaskExecutor) {e : TaskExecutor}
    → status_eq s (aggregate_task_status es) ≡ true
    → find? p es ≡ some e
    → is_completed_task s ≡ all (λ x. is_completed_task x.status) es
unfolding find?
status-all p s [] k f = ground arith
status-all p s (x ∷ xs) k f =
    status_eq-completed s (aggregate_task_status (x ∷ xs)) k ∙ aggregate-completed x xs

complete_executor-find? :
    (env : Env) (i : ℕ) (es : List TaskExecutor) {e : TaskExecutor}
    → find? (λ x. x.user_id == i) es ≡ some e
    → find? (λ x. x.user_id == i) (complete_executor env i es) ≡ some (completed_executor env e)
unfolding find? complete_executor
complete_executor-find? env i [] h = ground arith
complete_executor-find? env i (x ∷ xs) {e} h = elim (Bool-cases (x.user_id == i)) [
  | inl t ↦
      let same =
        some-injective
          (subst (λ b. (if b then some x else find? (λ y. y.user_id == i) xs) ≡ some e) t h) in
      rw t (rw t (ap (λ y. some (completed_executor env y)) same))
  | inr f ↦ rw f (
      rw f (
        complete_executor-find? env i xs {e = e}
          (subst (λ b. (if b then some x else find? (λ y. y.user_id == i) xs) ≡ some e) f h)))
]

-- On tasks whose status is the one that their executors add up to, a completion that returns leaves the
-- first executor who is the actor completed in the task, which is completed exactly if all its
-- executors are; and it keeps that relation of status and executors in every task.
pub complete_task_effect :
    (env : Env) (actor : User) (task_id : ℕ) (db : Db) {r : Db × Task}
    → complete_task env actor task_id db ≡ ok r
    → all is_aggregated db.tasks ≡ true
    → (get_task task_id r.0 ≡ some r.1)
      × ((e : TaskExecutor) × (find? (λ x. x.user_id == actor.id) r.1.executors ≡ some e)
          × (is_completed_task e.status ≡ true))
      × (is_completed_task r.1.status ≡ all (λ x. is_completed_task x.status) r.1.executors)
      × (all is_aggregated r.0.tasks ≡ true)
unfolding complete_task get_task
complete_task_effect env actor task_id db {r} h keeps =
    let (task, found, h1) = from_option->>=-eq-ok (get_task task_id db) (not_found no_task) _ h in
    let (e, own, h2) =
      from_option->>=-eq-ok (find? (λ x. x.user_id == actor.id) task.executors) permission_denied _
        h1 in
    let before = find?-all (λ t. t.id == task_id) is_aggregated db.tasks found keeps in
    let task' = with_completed env actor task in
    let own' = complete_executor-find? env actor.id task.executors own in
    let agrees = status_eq_refl (aggregate_task_status task'.executors) in
    let same = (==_iff _ _).0 (find?-sound (λ t. t.id == task_id) db.tasks found) in
    elim (Bool-cases (is_completed_task e.status)) [
      | inl t ↦
          let done = ok-injective (
            subst (λ b. (if b then ok (db, task) else ok (save_task task' db, task')) ≡ ok r) t
              h2) in
          rw (sym done) (
            found,
            (e, own, t),
            status-all (λ x. x.user_id == actor.id) task.status task.executors before own,
            keeps,
          )
      | inr f ↦
          let done = ok-injective (
            subst (λ b. (if b then ok (db, task) else ok (save_task task' db, task')) ≡ ok r) f
              h2) in
          rw (sym done) (
            subst
                (λ i.
                  find? (λ t. t.id == task_id) (put (λ t. t.id == i) task' db.tasks) ≡ some task')
                (sym same)
                (find?-put (λ t. t.id == task_id) db.tasks task' found ((==_iff _ _).1 same)),
            (completed_executor env e, own', refl),
            status-all (λ x. x.user_id == actor.id) task'.status task'.executors agrees own',
            all-put is_aggregated (λ t. t.id == task.id) task' db.tasks keeps agrees,
          )
    ]
