-- ===== src/Portfolio/Closure.antt =====
-- A closed main project (backend/app/services/main_projects.py) has no open sub project
-- (backend/app/services/sub_projects.py).
use project_lifecycle_manage.Base.{
  ℕ, ◌==◌, ==_iff, Bool, true, false, not, ◌||◌, none, some, List, [], ◌∷◌, ◌++◌, ◌≡◌, refl, sym,
  ap, subst, ◌∙◌, ◌⊎◌, inl, inr, arith, find?, find?-all, find?-put, find?-put_ne, all-put,
  all-append_one, some-injective, Bool-cases, put, if◌then◌else◌,
}
use project_lifecycle_manage.Model.{
  Db, MainProject, MainProjectStatus, is_closed_main, is_open_main,
}
use project_lifecycle_manage.Queries.{get_main_project}
use project_lifecycle_manage.MainProjects.Closing.{is_open_sub}
use project_lifecycle_manage.Portfolio.{◌⇒◌, ◌⇒*◌, stay, and_then}
use project_lifecycle_manage.Portfolio.Lifecycle.{settled_↝*}
use project_lifecycle_manage.Portfolio.Tables.{
  SubChange, MainChange, IsChanged, kept, added, written, has_no_open, ⇒-IsChanged,
}

-- No sub project of a closed main project is open.
abbrev pub IsClosedSettled : Db → Type 0
IsClosedSettled db =
    (i : ℕ) (m : MainProject)
    → get_main_project i db ≡ some m
    → is_closed_main m.status ≡ true
    → has_no_open i db.sub_projects ≡ true

closed_open : (t : MainProjectStatus) → is_open_main t ≡ true → is_closed_main t ≡ false
closed_open MainProjectStatus.not_started h = refl
closed_open MainProjectStatus.in_progress h = refl
closed_open MainProjectStatus.pending_review h = refl
closed_open MainProjectStatus.reviewing h = refl
closed_open MainProjectStatus.rejected h = refl
closed_open MainProjectStatus.completed h = refl
closed_open MainProjectStatus.closed h = absurd (ground (arith, h))

-- The sub projects of a main project that is closed before the step.
subs_settled :
    {a b : Db} (i : ℕ) (m : MainProject)
    → SubChange a b
    → get_main_project i a ≡ some m
    → is_closed_main m.status ≡ true
    → has_no_open i a.sub_projects ≡ true
    → has_no_open i b.sub_projects ≡ true
subs_settled i m (kept e) found closed h = subst (λ ss. has_no_open i ss ≡ true) (sym e) h
subs_settled {a} i m (added s main pending spent here still e) found closed h =
    let other : not (s.main_project_id == i) ≡ true = elim (Bool-cases (s.main_project_id == i)) [
      | inr n ↦ ap not n
      | inl t ↦
          let same : main ≡ m =
            some-injective (
              sym (subst (λ j. get_main_project j a ≡ some main) ((==_iff _ _).0 t) here)
              ∙ found) in
          absurd (
            ground (
              arith,
              closed_open main.status still,
              subst (λ x. is_closed_main x.status ≡ true) (sym same) closed,
            ))
    ] in
    subst (λ ss. has_no_open i ss ≡ true) (sym e)
      (all-append_one _ a.sub_projects s h (ground (arith, other)))
subs_settled {a} i m (written s s' here scope spent move e) found closed h =
    let before = find?-all (λ r. r.id == s'.id) _ a.sub_projects here h in
    let after : not (s'.main_project_id == i) || not (is_open_sub s'.status) ≡ true =
      elim (Bool-cases (s'.main_project_id == i)) [
        | inr n ↦ ground (arith, n)
        | inl t ↦
            let old = subst (λ j. j == i ≡ true) scope t in
            let settled = settled_↝* move (ground (arith, before, old)) in ground (arith, settled)
      ] in
    subst (λ ss. has_no_open i ss ≡ true) (sym e)
      (all-put _ (λ r. r.id == s'.id) s' a.sub_projects h after)

append_found :
    {A : Type 0} (p : A → Bool) (xs : List A) (x : A) {y : A}
    → find? p (xs ++ x ∷ []) ≡ some y
    → (find? p xs ≡ some y) ⊎ (x ≡ y)
unfolding find?
append_found p [] x {y} h = elim (Bool-cases (p x)) [
  | inl e ↦ inr (some-injective (subst (λ b. (if b then some x else none) ≡ some y) e h))
  | inr n ↦ absurd (ground (arith, subst (λ b. (if b then some x else none) ≡ some y) n h))
]
append_found p (z ∷ xs) x {y} h = elim (Bool-cases (p z)) [
  | inl e ↦ inl (ground (arith, e, h))
  | inr n ↦ rw n (append_found p xs x {y = y} (ground (arith, n, h)))
]

module _ {a b : Db} (c : IsChanged a b) (i : ℕ) (m : MainProject) (inv : IsClosedSettled a)
    (closed : is_closed_main m.status ≡ true) where
  -- The main project is closed in the database before.
  from_before :
      (m0 : MainProject)
      → get_main_project i a ≡ some m0
      → is_closed_main m0.status ≡ true
      → has_no_open i b.sub_projects ≡ true
  from_before m0 found shut = subs_settled i m0 c.subs found shut (inv i m0 found shut)

  step_settled :
      MainChange a b → get_main_project i b ≡ some m → has_no_open i b.sub_projects ≡ true
  unfolding get_main_project
  step_settled (kept e) h = from_before m (sym (ap (find? (λ r. r.id == i)) e) ∙ h) closed
  step_settled (added n fresh spent subs e) h =
      elim (append_found (λ r. r.id == i) a.main_projects n
        (sym (ap (find? (λ r. r.id == i)) e) ∙ h)) [
          | inl found ↦ from_before m found closed
          | inr same ↦
              absurd (
                ground
                  (arith, fresh, subst (λ x. is_closed_main x.status ≡ true) (sym same) closed))
        ]
  step_settled (written n n' here spent shut e) h =
      let after = sym (ap (find? (λ r. r.id == i)) e) ∙ h in
      elim (Bool-cases (n'.id == i)) [
        | inr d ↦
            from_before m
              (sym (
                  find?-put_ne (λ r. r.id == i) (λ r. r.id == n'.id) n' a.main_projects
                    (λ r t. subst (λ k. k == i ≡ false) (sym ((==_iff r.id n'.id).0 t)) d) d)
                ∙ after)
              closed
        | inl t ↦
            let same = (==_iff n'.id i).0 t in
            let old = subst (λ j. find? (λ r. r.id == j) a.main_projects ≡ some n) same here in
            let now =
              subst
                (λ j. find? (λ r. r.id == i) (put (λ r. r.id == j) n' a.main_projects) ≡ some n')
                (sym same) (find?-put (λ r. r.id == i) a.main_projects n' old t) in
            let row : n' ≡ m = some-injective (sym now ∙ after) in
            elim (shut (subst (λ x. is_closed_main x.status ≡ true) (sym row) closed)) [
              | inl was ↦ from_before n old was
              | inr settled ↦ subst (λ j. has_no_open j b.sub_projects ≡ true) same settled
            ]
      ]

⇒-IsClosedSettled : {a b : Db} → a ⇒ b → IsClosedSettled a → IsClosedSettled b
⇒-IsClosedSettled step inv i m found closed =
    let c = ⇒-IsChanged step in step_settled c i m inv closed c.mains found

-- From a database where closed main projects have no open sub project, calls of the main project and
-- sub project services that return, in whatever order and by whomever, lead to such a database: every
-- sub project of a main project that is closed is completed, closed or terminated.
pub reachable-IsClosedSettled : {a b : Db} → a ⇒* b → IsClosedSettled a → IsClosedSettled b
reachable-IsClosedSettled stay inv = inv
reachable-IsClosedSettled (and_then p step) inv =
    ⇒-IsClosedSettled step (reachable-IsClosedSettled p inv)
