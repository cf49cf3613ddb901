-- ===== src/System/Accounts.antt =====
-- What phases and requests leave of the sums in backend/app/services/payments.py.
use project_lifecycle_manage.Base.{
  ℕ, Bool, true, false, not, some, List, [], ◌∷◌, ◌≡◌, refl, sym, ap, subst, ◌∙◌, ℤ, ◌==◌, ==_iff,
  All-put, All-find, All-map, ◌+ℤ◌, all, find?, find?-sound, put, put-absent, distinct,
  distinct-put, some-injective, Bool-cases, inl, inr, &&-eq-true, if◌then◌else◌,
}
use project_lifecycle_manage.Model.{Db, Env, User, SubProject}
use project_lifecycle_manage.Errors.{ok}
use project_lifecycle_manage.Queries.{get_sub_project, save_sub_project, send}
use project_lifecycle_manage.Phases.Service.{
  PhasePromotionResult, promote_phase, complete_phase, finished, notify_promoted,
}
use project_lifecycle_manage.Phases.Promotion.{promote_phase-IsGranted}
use project_lifecycle_manage.Phases.Tables.{phases_done}
use project_lifecycle_manage.Phases.Effects.{
  new_rows, complete_phase_projects, complete_phase_accounts,
}
use project_lifecycle_manage.Payments.Service.{sum_by, sum_sub_project_spent}
use project_lifecycle_manage.Payments.Spending.{
  IsBalanced, IsBalanced-tables, IsSpentOf, IsMainSpentOf,
}

module _ {ℓ} {A : Type ℓ} (key : A → ℕ) (p : A → Bool) (f : A → ℤ) where
  -- A write that keeps what counts of the row with its key keeps the sum.
  pub sum_by-put_same :
      (xs : List A) (x x' : A)
      → distinct key xs ≡ true
      → find? (λ r. key r == key x') xs ≡ some x
      → p x' ≡ p x
      → f x' ≡ f x
      → sum_by p f (put (λ r. key r == key x') x' xs) ≡ sum_by p f xs
  unfolding sum_by put find? distinct
  sum_by-put_same [] x x' d h hp hf = refl
  sum_by-put_same (y ∷ ys) x x' d h hp hf = elim (Bool-cases (key y == key x')) [
    | inr n ↦ rw n (
        ap (λ t. if p y then f y +ℤ t else t)
          (sum_by-put_same ys x x' (&&-eq-true _ _ d).1
            (subst (λ b. (if b then some y else find? (λ r. key r == key x') ys) ≡ some x) n h) hp
            hf))
    | inl e ↦
        let same =
          some-injective
            (subst (λ b. (if b then some y else find? (λ r. key r == key x') ys) ≡ some x) e h) in
        let rest =
          put-absent (λ r. key r == key x') x' ys
            (subst (λ k. all (λ r. not (key r == k)) ys ≡ true) ((==_iff _ _).0 e)
              (&&-eq-true _ _ d).0) in
        rw (e, rest, hp, hf, same)
  ]

-- `finished` touches no sum.
finished-IsBalanced :
    (env : Env) (db : Db) (s : SubProject)
    → IsBalanced db
    → get_sub_project s.id db ≡ some s
    → IsBalanced (record db { sub_projects = save_sub_project (finished env s) db.sub_projects })
unfolding get_sub_project sum_sub_project_spent
finished-IsBalanced env db s balanced found = record {
  unique = distinct-put (λ r. r.id) _ db.sub_projects balanced.unique;
  sub_projects =
      All-put (IsSpentOf db.payments) (IsSpentOf db.payments) _ _ db.sub_projects
        balanced.sub_projects
        (All-find (IsSpentOf db.payments) _ db.sub_projects balanced.sub_projects found)
        (λ y n h. h);
  main_projects =
      All-map (IsMainSpentOf db.sub_projects)
        (IsMainSpentOf (save_sub_project (finished env s) db.sub_projects)) db.main_projects
        balanced.main_projects
        (λ m h.
          h
          ∙ sym (
              sum_by-put_same (λ r. r.id) (λ r. r.main_project_id == m.id) (λ r. r.spent_amount)
                db.sub_projects s (finished env s) balanced.unique found refl refl));
}

pub promote_phase-IsBalanced :
    (env : Env) (actor : User) (phase_id : ℕ) (db : Db) {r : PhasePromotionResult}
    → IsBalanced db
    → promote_phase env actor phase_id db ≡ ok r
    → IsBalanced r.db
unfolding get_sub_project
promote_phase-IsBalanced env actor phase_id db balanced h =
    let (g, e) = promote_phase-IsGranted env actor phase_id db h in
    let s = g.sub_project in
    let done = complete_phase env actor g.phase s db in
    let (payments, mains) = complete_phase_accounts env actor g.phase s db in
    let projects = complete_phase_projects env actor g.phase s db in
    let same =
      (==_iff _ _).0 (find?-sound (λ r. r.id == g.phase.sub_project_id) db.sub_projects g.scope) in
    let found = subst (λ i. find? (λ r. r.id == i) db.sub_projects ≡ some s) (sym same) g.scope in
    let at_test : (b : Bool)
        → phases_done s.id (new_rows env actor g.phase s db) ≡ b
        → done.db.sub_projects
          ≡ (if b then save_sub_project (finished env s) db.sub_projects else db.sub_projects) =
      λ b t.
        subst
          (λ c.
            done.db.sub_projects
            ≡ (if c then save_sub_project (finished env s) db.sub_projects else db.sub_projects))
          t projects in
    rw e (
      unfold notify_promoted send in
      elim (Bool-cases (phases_done s.id (new_rows env actor g.phase s db))) [
        | inl y ↦
            IsBalanced-tables
              (record db { sub_projects = save_sub_project (finished env s) db.sub_projects }) _
              payments (at_test true y) mains (finished-IsBalanced env db s balanced found)
        | inr n ↦ IsBalanced-tables db _ payments (at_test false n) mains balanced
      ])
