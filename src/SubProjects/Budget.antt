-- ===== src/SubProjects/Budget.antt =====
-- The budget of a main project against those of its approved sub projects
-- (backend/app/services/sub_projects.py).
use project_lifecycle_manage.Base.{
  ℕ, ◌==◌, ==_iff, Bool, true, false, not, ◌&&◌, ◌||◌, some, List, [], ◌∷◌, ◌≡◌, refl, sym, ap,
  subst, ◌∙◌, arith, ℤ, ◌+ℤ◌, leb_ℤ, +ℤ_parts, eq_of_parts, find?, find?-sound, put, put-absent,
  all, all_mono, distinct, &&-eq-true, Bool-cases, inl, inr, if◌then◌else◌,
}
use project_lifecycle_manage.Model.{
  Db, Env, User, SubProject, SubProjectStatus, MainProject, ProjectReviewDecision,
  is_approved_project,
}
use project_lifecycle_manage.Errors.{Error, ok, guard}
use project_lifecycle_manage.Queries.{get_sub_project, get_main_project}
use project_lifecycle_manage.Payments.Service.{sum_by}
use project_lifecycle_manage.Payments.Spending.{+ℤ_assoc}
use project_lifecycle_manage.SubProjects.Review.{
  SubProjectReviewRequest, review_sub_project, is_confirmed, is_allocated, sum_approved_budget,
  validate_over_budget, with_sub_status, decide_review, announce_review,
}
use project_lifecycle_manage.SubProjects.Effects.{
  review_sub_project-IsReviewed, decide_review-approve,
}

+ℤ_comm : (a b : ℤ) → a +ℤ b ≡ b +ℤ a
+ℤ_comm a b = eq_of_parts _ _ (omega (arith, +ℤ_parts a b, +ℤ_parts b a))

same_test : (p k q : Bool) → q ≡ (p && not k) → not k ≡ true → (if p then q else not q) ≡ true
same_test p k q e h = ground (arith, e, h)

dropped : (p k q : Bool) → q ≡ (p && not k) → k ≡ true → q ≡ false
dropped p k q e h = ground (arith, e, h)

or_false : (a b : Bool) → a || b ≡ true → b ≡ false → a ≡ true
or_false a b h k = ground (arith, h, k)

and_true : (b : Bool) → b && true ≡ b
and_true true = refl
and_true false = refl

module _ {ℓ} {A : Type ℓ} (f : A → ℤ) where
  sum_by_cong :
      (p q : A → Bool) (xs : List A)
      → all (λ x. if p x then q x else not (q x)) xs ≡ true
      → sum_by p f xs ≡ sum_by q f xs
  unfolding sum_by all
  sum_by_cong p q [] h = refl
  sum_by_cong p q (x ∷ xs) h = ground (arith, sum_by_cong p q xs)

  sum_by-put_split :
      (key : A → ℕ) (p q : A → Bool) (x x' : A) (xs : List A)
      → distinct key xs ≡ true
      → find? (λ r. key r == key x') xs ≡ some x
      → p x' ≡ true
      → ((r : A) → q r ≡ (p r && not (key r == key x')))
      → sum_by p f (put (λ r. key r == key x') x' xs) ≡ sum_by q f xs +ℤ f x'
  unfolding sum_by put find? distinct
  sum_by-put_split key p q x x' [] d h k e = absurd (ground (arith, h))
  sum_by-put_split key p q x x' (y ∷ ys) d h k e = elim (Bool-cases (key y == key x')) [
    | inl t ↦
        let same = (==_iff (key y) (key x')).0 t in
        let absent = subst (λ j. all (λ r. not (key r == j)) ys ≡ true) same (&&-eq-true _ _ d).0 in
        let rest = put-absent (λ r. key r == key x') x' ys absent in
        let others = sum_by_cong p q ys (
          all_mono (λ r. not (key r == key x')) (λ r. if p r then q r else not (q r)) ys
            (λ r a. same_test (p r) (key r == key x') (q r) (e r) a) absent) in
        let off = dropped (p y) (key y == key x') (q y) (e y) t in
        rw (t, rest, k, off) (+ℤ_comm (f x') (sum_by p f ys) ∙ ap (λ z. z +ℤ f x') others)
    | inr n ↦
        let more =
          sum_by-put_split key p q x x' ys (&&-eq-true _ _ d).1
            (subst (λ b. (if b then some y else find? (λ r. key r == key x') ys) ≡ some x) n h) k
            e in
        let on = e y ∙ ap (λ b. p y && not b) n ∙ and_true (p y) in
        elim (Bool-cases (p y)) [
          | inl t ↦ rw (n, t, on ∙ t) (ap (λ z. f y +ℤ z) more ∙ +ℤ_assoc _ _ _)
          | inr u ↦ rw (n, u, on ∙ u) more
        ]
  ]

-- What the approved sub projects of a main project may spend together.
unfoldable pub allocated : ℕ → List SubProject → ℤ
allocated m ss =
    sum_by (λ s. s.main_project_id == m && is_approved_project s.status) (λ s. s.budget) ss

swap_last : (a k b : Bool) → (a && (not k && b)) ≡ ((a && b) && not k)
swap_last true true true = refl
swap_last true true false = refl
swap_last true false true = refl
swap_last true false false = refl
swap_last false k b = refl

guard_passed : (t : Bool) (e : Error) → guard t e ≡ ok tt → t ≡ true
guard_passed true e h = refl
guard_passed false e h = ground (arith, h)

within_budget :
    (main : MainProject) (s : SubProject) (payload : SubProjectReviewRequest) (db : Db)
    → is_confirmed payload ≡ false
    → validate_over_budget main s payload ProjectReviewDecision.approve db ≡ ok tt
    → leb_ℤ (sum_approved_budget main.id s.id db.sub_projects +ℤ s.budget) main.total_budget ≡ true
unfolding validate_over_budget
within_budget main s payload db bare h =
    let passed =
      guard_passed
        (leb_ℤ (sum_approved_budget main.id s.id db.sub_projects +ℤ s.budget) main.total_budget
          || is_confirmed payload)
        _ h in
    or_false _ _ passed bare

-- The sum with the sub project that is approved.
allocated-approved :
    (env : Env) (m : ℕ) (s : SubProject) (ss : List SubProject)
    → distinct (λ r. r.id) ss ≡ true
    → find? (λ r. r.id == s.id) ss ≡ some s
    → s.main_project_id == m ≡ true
    → allocated m (put (λ r. r.id == s.id) (with_sub_status env SubProjectStatus.in_progress s) ss)
      ≡ sum_approved_budget m s.id ss +ℤ s.budget
unfolding allocated sum_approved_budget
allocated-approved env m s ss unique found same =
    sum_by-put_split (λ r. r.budget) (λ r. r.id)
      (λ r. r.main_project_id == m && is_approved_project r.status) (is_allocated m s.id) s
      (with_sub_status env SubProjectStatus.in_progress s) ss unique found (ground (arith, same))
      (λ r. swap_last (r.main_project_id == m) (r.id == s.id) (is_approved_project r.status))

-- An approval that returns and was not confirmed beyond the budget (with `confirm_over_budget` and a
-- reason) keeps to it: the budgets of all approved sub projects of the main project, the new one
-- included, add up to no more than its total budget. The sub projects have distinct ids before.
pub review_sub_project_budget :
    (env : Env) (actor : User) (i : ℕ) (payload : SubProjectReviewRequest) (db : Db)
    {r : Db × SubProject}
    → distinct (λ s. s.id) db.sub_projects ≡ true
    → payload.decision ≡ ProjectReviewDecision.approve
    → is_confirmed payload ≡ false
    → review_sub_project env actor i payload db ≡ ok r
    → (main : MainProject) × (get_main_project r.1.main_project_id db ≡ some main)
      × (leb_ℤ (allocated main.id r.0.sub_projects) main.total_budget ≡ true)
unfolding get_sub_project get_main_project
review_sub_project_budget env actor i payload db unique approves bare h =
    let c = review_sub_project-IsReviewed env actor i payload db h in
    let (fit, e) = decide_review-approve env actor c.s c.main payload db (
      subst (λ d. decide_review env actor c.s c.main payload d db ≡ ok c.reviewed) approves
        c.decided) in
    let whole = c.returned ∙ ap (λ x. (announce_review actor x.1 x.0, x.1)) e in
    let same = (==_iff c.s.id i).0 (find?-sound (λ s. s.id == i) db.sub_projects c.found) in
    let found = subst (λ j. find? (λ s. s.id == j) db.sub_projects ≡ some c.s) (sym same) c.found in
    let owner =
      (==_iff c.main.id c.s.main_project_id).0
        (find?-sound (λ m. m.id == c.s.main_project_id) db.main_projects c.scope) in
    let total =
      allocated-approved env c.main.id c.s db.sub_projects unique found
        ((==_iff c.s.main_project_id c.main.id).1 (sym owner)) in
    let within =
      within_budget c.main c.s payload db bare
        (subst (λ d. validate_over_budget c.main c.s payload d db ≡ ok tt) approves c.budget) in
    subst
      (λ x.
        (main : MainProject) × (get_main_project x.1.main_project_id db ≡ some main)
        × (leb_ℤ (allocated main.id x.0.sub_projects) main.total_budget ≡ true))
      (sym whole)
      (c.main, c.scope, subst (λ z. leb_ℤ z c.main.total_budget ≡ true) (sym total) within)
