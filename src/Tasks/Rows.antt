-- ===== src/Tasks/Rows.antt =====
-- The rows that `update_task` of backend/app/services/tasks.py leaves are the executors that it returns,
-- in another order.
use project_lifecycle_manage.Base.{
  ℕ, suc, ◌==◌, ==_iff, Bool, true, false, not, ◌&&◌, ◌||◌, Option, none, some, List, [], ◌∷◌, ◌≡◌,
  refl, sym, subst, ◌∙◌, arith, find?, find_last?, any, any-append, all, distinct, Bool-cases,
  Option-cases, inl, inr, &&-eq-true,
}
use project_lifecycle_manage.Model.{Env, Task, TaskExecutor, TaskStatus}
use project_lifecycle_manage.Tasks.Service.{
  TaskExecutorAssign, aggregate_task_status, new_executor, is_completed_task, is_overdue_task,
  is_running_task, some_executors,
}
use project_lifecycle_manage.Tasks.Reassign.{
  existing_executor, updated_executors, reassigned_row, is_assigned, kept_executors,
  added_executors, stored_executors,
}

pub find_last?-sound :
    (p : TaskExecutor → Bool) (es : List TaskExecutor) {e : TaskExecutor}
    → find_last? p es ≡ some e
    → p e ≡ true
unfolding find_last?
find_last?-sound p [] h = ground arith
find_last?-sound p (x ∷ xs) {e} h = elim (Option-cases (find_last? p xs)) [
  | inl n ↦ ground (arith, n, h)
  | inr (y, s) ↦ ground (arith, s, h, find_last?-sound p xs {e = y} s)
]

-- uq_task_executors_task_user
abbrev pub users_once : Task → Bool
users_once t = distinct (λ e. e.user_id) t.executors

module _ (Q : ℕ → TaskStatus → Bool) where
  abbrev pub holds : TaskExecutor → Bool
  holds e = Q e.user_id e.status

  abbrev holds_opt : Option TaskExecutor → Bool
  holds_opt none = false
  holds_opt (some e) = holds e

  none-assigned : (es : List TaskExecutor) → any (λ e. is_assigned [] e && holds e) es ≡ false
  unfolding any
  none-assigned [] = refl
  none-assigned (e ∷ es) = none-assigned es

  row-holds :
      (env : Env) (e : TaskExecutor) (o : Option TaskExecutorAssign)
      → holds (reassigned_row env e o) ≡ holds e
  row-holds env e none = refl
  row-holds env e (some a) = refl

  any-kept :
      (env : Env) (xs : List TaskExecutorAssign) (es : List TaskExecutor)
      → any holds (kept_executors env xs es) ≡ any (λ e. is_assigned xs e && holds e) es
  unfolding any kept_executors
  any-kept env xs [] = refl
  any-kept env xs (e ∷ es) = elim (Bool-cases (is_assigned xs e)) [
    | inl t ↦
        let same = row-holds env e (find? (λ a. a.user_id == e.user_id) xs) in
        ground (arith, t, same, any-kept env xs es)
    | inr f ↦ ground (arith, f, any-kept env xs es)
  ]

  split-assigned :
      (a : TaskExecutorAssign) (xs : List TaskExecutorAssign) (es : List TaskExecutor)
      → any (λ e. is_assigned (a ∷ xs) e && holds e) es
        ≡ any (λ e. a.user_id == e.user_id && holds e) es
          || any (λ e. is_assigned xs e && holds e) es
  unfolding any
  split-assigned a xs [] = refl
  split-assigned a xs (e ∷ es) = ground (arith, split-assigned a xs es)

  no-user :
      (u : ℕ) (es : List TaskExecutor)
      → all (λ e. not (e.user_id == u)) es ≡ true
      → (find_last? (λ e. e.user_id == u) es ≡ none)
        × (any (λ e. u == e.user_id && holds e) es ≡ false)
  unfolding any all find_last?
  no-user u [] h = (refl, refl)
  no-user u (e ∷ es) h =
      let (off, rest) = &&-eq-true (not (e.user_id == u)) (all (λ x. not (x.user_id == u)) es) h in
      let (l, r) = no-user u es rest in
      let other : e.user_id == u ≡ false = ground (arith, off) in
      (rw (l, other) refl, ground (arith, other, r))

  -- Of a user there is one row at most, which the lookup finds.
  any-user :
      (u : ℕ) (es : List TaskExecutor)
      → distinct (λ e. e.user_id) es ≡ true
      → any (λ e. u == e.user_id && holds e) es ≡ holds_opt (find_last? (λ e. e.user_id == u) es)
  unfolding any find_last? distinct
  any-user u [] h = refl
  any-user u (e ∷ es) h =
      let (apart, rest) =
        &&-eq-true (all (λ x. not (x.user_id == e.user_id)) es) (distinct (λ x. x.user_id) es) h in
      let later = any-user u es rest in
      elim (Bool-cases (e.user_id == u)) [
        | inl t ↦
            let same : e.user_id ≡ u = (==_iff e.user_id u).0 t in
            let (l, r) =
              no-user u es (subst (λ i. all (λ x. not (x.user_id == i)) es ≡ true) same apart) in
            let self : u == e.user_id ≡ true = (==_iff u e.user_id).1 (sym same) in
            rw (l, t, r, self) (ground arith)
        | inr f ↦
            let off : u == e.user_id ≡ false = ground (arith, f) in
            elim (Option-cases (find_last? (λ x. x.user_id == u) es)) [
              | inl n ↦ rw (off, n, f) (later ∙ rw n refl)
              | inr (y, m) ↦ rw (off, m) (later ∙ rw m refl)
            ]
      ]

  -- The rows and the returned executors have the same users with the same statuses.
  any-updated :
      (env : Env) (k : ℕ) (task : Task) (xs : List TaskExecutorAssign)
      → users_once task ≡ true
      → any holds (updated_executors env k task xs)
        ≡ any (λ e. is_assigned xs e && holds e) task.executors
          || any holds (added_executors env k task xs)
  unfolding any updated_executors added_executors new_executor
  any-updated env k task [] once = rw (none-assigned task.executors) refl
  any-updated env k task (a ∷ xs) once =
      let later = any-updated env (suc k) task xs once in
      let split = split-assigned a xs task.executors in
      let one = any-user a.user_id task.executors once in
      elim (Option-cases (existing_executor task a)) [
        | inl n ↦ rw (split, one, n, later) (ground arith)
        | inr (e, m) ↦
            let same =
              (==_iff e.user_id a.user_id).0
                (find_last?-sound (λ x. x.user_id == a.user_id) task.executors m) in
            rw (split, one, m, later) (ground arith)
      ]

  pub stored-any :
      (env : Env) (task : Task) (xs : List TaskExecutorAssign)
      → users_once task ≡ true
      → any holds (stored_executors env task (some xs))
        ≡ any holds (updated_executors env 0 task xs)
  unfolding stored_executors
  stored-any env task xs once =
      any-append holds (kept_executors env xs task.executors) (added_executors env 0 task xs)
      ∙ rw (any-kept env xs task.executors) (sym (any-updated env 0 task xs once))

all-any :
    (p : TaskExecutor → Bool) (es : List TaskExecutor) → all p es ≡ not (any (λ e. not (p e)) es)
unfolding all any
all-any p [] = refl
all-any p (e ∷ es) = ground (arith, all-any p es)

some-any : (es : List TaskExecutor) → some_executors es ≡ any (λ e. true) es
unfolding any
some-any [] = refl
some-any (e ∷ es) = refl

-- The status that executors add up to does not depend on their order.
pub aggregate-any :
    (es fs : List TaskExecutor)
    → ((Q : ℕ → TaskStatus → Bool) → any (holds Q) es ≡ any (holds Q) fs)
    → aggregate_task_status es ≡ aggregate_task_status fs
unfolding aggregate_task_status
aggregate-any es fs h =
    rw
      (
        some-any es,
        some-any fs,
        all-any (λ e. is_completed_task e.status) es,
        all-any (λ e. is_completed_task e.status) fs,
        h (λ u s. true),
        h (λ u s. not (is_completed_task s)),
        h (λ u s. is_overdue_task s),
        h (λ u s. is_running_task s),
      )
      refl
