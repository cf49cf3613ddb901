-- ===== src/SubProjects/Ending.antt =====
-- What `close_sub_project` of backend/app/services/sub_projects.py asks of the phases.
use project_lifecycle_manage.Base.{
  ℕ, ◌==◌, ==_iff, true, false, not, ◌&&◌, ◌||◌, some, List, [], ◌∷◌, ◌≡◌, refl, sym, ap, subst,
  ◌∙◌, arith, inl, inr, find?, find?-put, find?-sound, all, count, length, some-injective,
}
use project_lifecycle_manage.Model.{
  Db, Env, User, SubProject, SubProjectStatus, Phase, ProjectReviewDecision, is_closed_project,
  is_completed,
}
use project_lifecycle_manage.Errors.{ok, err, Error, Result-cases}
use project_lifecycle_manage.Queries.{get_sub_project}
use project_lifecycle_manage.SubProjects.Closing.{
  close_sub_project, phase_count, incomplete_count, ended,
}
use project_lifecycle_manage.SubProjects.Review.{
  SubProjectReviewRequest, review_sub_project, phase_definitions_for,
}
use project_lifecycle_manage.SubProjects.Effects.{
  IsClosing, restamps, ends, close_sub_project-IsClosing,
}
use project_lifecycle_manage.SubProjects.Approval.{review_sub_project-IsApproved}

none_incomplete :
    (s : ℕ) (ps : List Phase)
    → count (λ p. p.sub_project_id == s && not (is_completed p.status)) ps ≡ 0
    → all (λ p. not (p.sub_project_id == s) || is_completed p.status) ps ≡ true
unfolding count all
none_incomplete s [] h = refl
none_incomplete s (p ∷ ps) h = ground (arith, none_incomplete s ps)

closing-demands :
    (env : Env) (actor : User) (s : SubProject) (db : Db) {r : Db × SubProject}
    → is_closed_project s.status ≡ false
    → find? (λ t. t.id == s.id) db.sub_projects ≡ some s
    → IsClosing env actor db s r
    → (phase_count s.id db ≡ 6)
      × (all (λ p. not (p.sub_project_id == s.id) || is_completed p.status) db.phases ≡ true)
      × (r.1 ≡ ended env SubProjectStatus.closed s)
      × (find? (λ t. t.id == s.id) r.0.sub_projects ≡ some r.1)
      × (r.0.phases ≡ db.phases)
unfolding incomplete_count
closing-demands env actor s db still found (restamps e h) =
    absurd (ground (arith, still, ap is_closed_project e))
closing-demands env actor s db {r} still found (ends running n c h) = (
  n,
  none_incomplete s.id db.phases c,
  ap (λ x. x.1) h,
  subst (λ x. find? (λ t. t.id == s.id) x.0.sub_projects ≡ some x.1) (sym h)
      (find?-put (λ t. t.id == s.id) db.sub_projects (ended env SubProjectStatus.closed s) found
        ((==_iff s.id s.id).1 refl)),
  ap (λ x. x.0.phases) h,
)

-- A close that returns for a sub project that was not closed found exactly six phases of it, all
-- completed, and leaves it found as before but closed, with today as its actual end and now as its
-- closing time; the phases stay as they are.
pub close_sub_project_demands :
    (env : Env) (actor : User) (i : ℕ) (s : SubProject) (db : Db) {r : Db × SubProject}
    → get_sub_project i db ≡ some s
    → is_closed_project s.status ≡ false
    → close_sub_project env actor i db ≡ ok r
    → (phase_count i db ≡ 6)
      × (all (λ p. not (p.sub_project_id == i) || is_completed p.status) db.phases ≡ true)
      × (r.1 ≡ record s {
        status = SubProjectStatus.closed;
        actual_end_date = some env.today;
        closed_at = some env.now;
        updated_at = env.now;
      })
      × (get_sub_project i r.0 ≡ some r.1)
      × (r.0.phases ≡ db.phases)
unfolding get_sub_project
close_sub_project_demands env actor i s db {r} found still h =
    let (t, here, manager, c) = close_sub_project-IsClosing env actor i db h in
    let row : t ≡ s = some-injective (sym here ∙ found) in
    let same = (==_iff s.id i).0 (find?-sound (λ x. x.id == i) db.sub_projects found) in
    let closing = subst (λ x. IsClosing env actor db x r) row c in
    let self = subst (λ j. find? (λ x. x.id == j) db.sub_projects ≡ some s) (sym same) found in
    let (six, done, returned, stored, kept) = closing-demands env actor s db still self closing in
    (
      subst (λ j. phase_count j db ≡ 6) same six,
      subst (λ j. all (λ p. not (p.sub_project_id == j) || is_completed p.status) db.phases ≡ true)
          same done,
      returned,
      subst (λ j. find? (λ x. x.id == j) r.0.sub_projects ≡ some r.1) same stored,
      kept,
    )

close_sub_project_six :
    (env env' : Env) (actor actor' : User) (i : ℕ) (payload : SubProjectReviewRequest)
    (s s' : SubProject) (db db' : Db) {r r' : Db × SubProject}
    → payload.decision ≡ ProjectReviewDecision.approve
    → get_sub_project i db ≡ some s
    → phase_count i db ≡ 0
    → review_sub_project env actor i payload db ≡ ok r
    → phase_count i db' ≡ phase_count i r.0
    → get_sub_project i db' ≡ some s'
    → is_closed_project s'.status ≡ false
    → close_sub_project env' actor' i db' ≡ ok r'
    → length (phase_definitions_for s db) ≡ 6
unfolding get_sub_project
close_sub_project_six env env' actor actor' i payload s s' db db' {r} approves found fresh h same
      here still h' =
    let a = review_sub_project-IsApproved env actor i payload db approves h in
    let row : a.s ≡ s = some-injective (sym a.found ∙ found) in
    let key = (==_iff s.id i).0 (find?-sound (λ x. x.id == i) db.sub_projects found) in
    let id : a.s.id ≡ i = ap (λ x. x.id) row ∙ key in
    let n =
      subst (λ j. phase_count j r.0 ≡ length (phase_definitions_for a.s db)) id
        (a.counted (subst (λ j. phase_count j db ≡ 0) (sym id) fresh)) in
    let six = (close_sub_project_demands env' actor' i s' db' here still h').0 in
    ap (λ x. length (phase_definitions_for x db)) (sym row) ∙ sym n ∙ sym same ∙ six

-- A sub project without phases was approved, and its workflow version (or the default) has another
-- number of phase definitions than six. In any later database with as many phases of it as the approval
-- left, in which it is not closed, every call of close_sub_project for it fails, whoever makes it.
pub close_sub_project_not_six :
    (env env' : Env) (actor actor' : User) (i : ℕ) (payload : SubProjectReviewRequest)
    (s s' : SubProject) (db db' : Db) {r : Db × SubProject}
    → payload.decision ≡ ProjectReviewDecision.approve
    → get_sub_project i db ≡ some s
    → phase_count i db ≡ 0
    → review_sub_project env actor i payload db ≡ ok r
    → length (phase_definitions_for s db) == 6 ≡ false
    → phase_count i db' ≡ phase_count i r.0
    → get_sub_project i db' ≡ some s'
    → is_closed_project s'.status ≡ false
    → (e : Error) × (close_sub_project env' actor' i db' ≡ err e)
close_sub_project_not_six env env' actor actor' i payload s s' db db' approves found fresh h other
      same here still =
    elim (Result-cases (close_sub_project env' actor' i db')) [
      | inr failure ↦ failure
      | inl (r', h') ↦
          let six =
            close_sub_project_six env env' actor actor' i payload s s' db db' approves found fresh h
              same here still h' in
          absurd (ground (arith, six, other))
    ]
