-- ===== src/SubProjects/Effects.antt =====
-- What a call of `SubProjectService` in backend/app/services/sub_projects.py that returns has checked,
-- and what it returns.
use project_lifecycle_manage.Base.{
  ℕ, ◌==◌, ltb, true, not, ◌&&◌, ◌||◌, Option, some, ◌≡◌, refl, sym, arith, codes, &&-eq-true,
}
use project_lifecycle_manage.Model.{
  Db, Env, User, SubProject, SubProjectStatus, MainProject, ProjectReviewDecision, is_open_main,
  is_pending_project, is_rejected_project, is_started_project, is_completed_project,
  is_ended_project, is_admin, is_dept_manager,
}
use project_lifecycle_manage.Errors.{
  ok, permission_denied, integrity_error, ok-injective, >>=-eq-ok, guard->>-eq-ok,
  from_option->>=-eq-ok,
}
use project_lifecycle_manage.Queries.{get_sub_project, get_main_project, is_user}
use project_lifecycle_manage.SubProjects.Creation.{
  SubProjectCreate, SubProjectUpdate, create_sub_project, insert_sub_project, created_sub_project,
  version_for, update_sub_project, write_sub_project, updated_sub_project, submit_sub_project,
  submitted_sub_project, announce_submission,
}
use project_lifecycle_manage.SubProjects.Review.{
  SubProjectReviewRequest, review_sub_project, validate_over_budget, decide_review, announce_review,
  approve_sub_project, reject_sub_project, with_sub_status, phases_fit, created_phases,
}
use project_lifecycle_manage.SubProjects.Closing.{
  close_sub_project, close_by_status, close_open, stamped, ended, audit_sub_project, phase_count,
  incomplete_count, terminate_sub_project,
}

pub create_sub_project-eq-ok :
    (env : Env) (actor : User) (payload : SubProjectCreate) (db : Db) {r : Db × SubProject}
    → create_sub_project env actor payload db ≡ ok r
    → (main : MainProject) × (version : Option ℕ) × (get_main_project payload.main_project_id db
        ≡ some main)
      × (is_open_main main.status ≡ true)
      × (r ≡ (
        insert_sub_project env actor main.id
            (created_sub_project env actor payload main version db)
            db,
        created_sub_project env actor payload main version db,
      ))
unfolding create_sub_project
create_sub_project-eq-ok env actor payload db h =
    let (main, found, h1) =
      from_option->>=-eq-ok (get_main_project payload.main_project_id db) _ _ h in
    let (still, h2) = guard->>-eq-ok (is_open_main main.status) _ _ h1 in
    let (version, chosen, h3) =
      >>=-eq-ok (version_for payload.workflow_template_version_id main.project_type_id db) _ h2 in
    (main, version, found, still, sym (ok-injective h3))

pub update_sub_project-eq-ok :
    (env : Env) (actor : User) (i : ℕ) (payload : SubProjectUpdate) (db : Db) {r : Db × SubProject}
    → update_sub_project env actor i payload db ≡ ok r
    → (s : SubProject) × (get_sub_project i db ≡ some s)
      × (is_user s.creator_id actor.id ≡ true)
      × (is_rejected_project s.status ≡ true)
      × (r ≡ (
        write_sub_project (updated_sub_project env payload s) db,
        updated_sub_project env payload s,
      ))
unfolding update_sub_project
update_sub_project-eq-ok env actor i payload db h =
    let (s, found, h1) = from_option->>=-eq-ok (get_sub_project i db) _ _ h in
    let (own, h2) = guard->>-eq-ok (is_user s.creator_id actor.id) permission_denied _ h1 in
    let (rejected, h3) = guard->>-eq-ok (is_rejected_project s.status) _ _ h2 in
    (s, found, own, rejected, sym (ok-injective h3))

pub submit_sub_project-eq-ok :
    (env : Env) (actor : User) (i : ℕ) (db : Db) {r : Db × SubProject}
    → submit_sub_project env actor i db ≡ ok r
    → (s : SubProject) × (get_sub_project i db ≡ some s)
      × (is_user s.creator_id actor.id ≡ true)
      × (is_pending_project s.status || is_rejected_project s.status ≡ true)
      × (r ≡ (
        announce_submission actor
            (submitted_sub_project env s)
            (write_sub_project (submitted_sub_project env s) db),
        submitted_sub_project env s,
      ))
unfolding submit_sub_project
submit_sub_project-eq-ok env actor i db h =
    let (s, found, h1) = from_option->>=-eq-ok (get_sub_project i db) _ _ h in
    let (own, h2) = guard->>-eq-ok (is_user s.creator_id actor.id) permission_denied _ h1 in
    let (still, h3) =
      guard->>-eq-ok (is_pending_project s.status || is_rejected_project s.status) _ _ h2 in
    (s, found, own, still, sym (ok-injective h3))

-- What a review has checked, and the decision it took.
pub record IsReviewed (env : Env) (actor : User) (i : ℕ) (payload : SubProjectReviewRequest)
    (db : Db) (r : Db × SubProject) : Type 0 where
  pub s : SubProject
  pub main : MainProject
  pub found : get_sub_project i db ≡ some s
  pub scope : get_main_project s.main_project_id db ≡ some main
  pub reviewer : is_admin actor.role || is_dept_manager actor.role ≡ true
  pub other : not (is_user s.creator_id actor.id) ≡ true
  pub pending : is_pending_project s.status ≡ true
  pub budget : validate_over_budget main s payload payload.decision db ≡ ok tt
  pub reviewed : Db × SubProject
  pub decided : decide_review env actor s main payload payload.decision db ≡ ok reviewed
  pub returned : r ≡ (announce_review actor reviewed.1 reviewed.0, reviewed.1)

pub review_sub_project-IsReviewed :
    (env : Env) (actor : User) (i : ℕ) (payload : SubProjectReviewRequest) (db : Db)
    {r : Db × SubProject}
    → review_sub_project env actor i payload db ≡ ok r
    → IsReviewed env actor i payload db r
unfolding review_sub_project
review_sub_project-IsReviewed env actor i payload db h =
    let (reviewer, h1) =
      guard->>-eq-ok (is_admin actor.role || is_dept_manager actor.role) permission_denied _ h in
    let (s, found, h2) = from_option->>=-eq-ok (get_sub_project i db) _ _ h1 in
    let (other, h3) = guard->>-eq-ok (not (is_user s.creator_id actor.id)) permission_denied _ h2 in
    let (pending, h4) = guard->>-eq-ok (is_pending_project s.status) _ _ h3 in
    let (main, scope, h5) = from_option->>=-eq-ok (get_main_project s.main_project_id db) _ _ h4 in
    let (u, budget, h6) =
      >>=-eq-ok (validate_over_budget main s payload payload.decision db) _ h5 in
    let (reviewed, decided, h7) =
      >>=-eq-ok (decide_review env actor s main payload payload.decision db) _ h6 in
    record {
      s = s;
      main = main;
      found = found;
      scope = scope;
      reviewer = reviewer;
      other = other;
      pending = pending;
      budget = budget;
      reviewed = reviewed;
      decided = decided;
      returned = sym (ok-injective h7);
    }

-- The two decisions.
pub decide_review-approve :
    (env : Env) (actor : User) (s : SubProject) (main : MainProject)
    (payload : SubProjectReviewRequest) (db : Db) {r : Db × SubProject}
    → decide_review env actor s main payload ProjectReviewDecision.approve db ≡ ok r
    → (phases_fit db.phases (created_phases env s db) ≡ true)
      × (r ≡ (
        approve_sub_project env actor s main payload db,
        with_sub_status env SubProjectStatus.in_progress s,
      ))
decide_review-approve env actor s main payload db h =
    let (fit, h1) =
      guard->>-eq-ok (phases_fit db.phases (created_phases env s db)) integrity_error _ h in
    (fit, sym (ok-injective h1))

pub decide_review-reject :
    (env : Env) (actor : User) (s : SubProject) (main : MainProject)
    (payload : SubProjectReviewRequest) (db : Db) {r : Db × SubProject}
    → decide_review env actor s main payload ProjectReviewDecision.reject db ≡ ok r
    → r
      ≡ (reject_sub_project env actor s payload db, with_sub_status env SubProjectStatus.rejected s)
decide_review-reject env actor s main payload db h = sym (ok-injective h)

-- A close either stamps a closed sub project or closes one with six completed phases.
pub data IsClosing (env : Env) (actor : User) (db : Db) (s : SubProject) (r : Db × SubProject)
    : Type 0 where
  restamps :
      s.status ≡ SubProjectStatus.closed
      → r ≡ (write_sub_project (stamped env s.closed_at s) db, stamped env s.closed_at s)
      → IsClosing env actor db s r
  ends :
      is_started_project s.status || is_completed_project s.status ≡ true
      → phase_count s.id db ≡ 6
      → incomplete_count s.id db ≡ 0
      → r ≡ (
        audit_sub_project
            (codes "sub_project.close")
            actor
            s
            (write_sub_project (ended env SubProjectStatus.closed s) db),
        ended env SubProjectStatus.closed s,
      )
      → IsClosing env actor db s r

close_open-IsClosing :
    (env : Env) (actor : User) (s : SubProject) (db : Db) {r : Db × SubProject}
    → close_open env actor s db ≡ ok r
    → IsClosing env actor db s r
close_open-IsClosing env actor s db h =
    let (running, h1) =
      guard->>-eq-ok (is_started_project s.status || is_completed_project s.status) _ _ h in
    let (six, h2) =
      guard->>-eq-ok (phase_count s.id db == 6 && not (ltb 0 (incomplete_count s.id db))) _ _ h1 in
    let (n, c) =
      &&-eq-true (phase_count s.id db == 6) (not (ltb 0 (incomplete_count s.id db))) six in
    ends running (ground (arith, n)) (ground (arith, c)) (sym (ok-injective h2))

close_by_status-IsClosing :
    (env : Env) (actor : User) (s : SubProject) (t : SubProjectStatus) (db : Db)
    {r : Db × SubProject}
    → s.status ≡ t
    → close_by_status env actor s t db ≡ ok r
    → IsClosing env actor db s r
close_by_status-IsClosing env actor s SubProjectStatus.closed db e h =
    restamps e (sym (ok-injective h))
close_by_status-IsClosing env actor s SubProjectStatus.pending_review db e h =
    close_open-IsClosing env actor s db h
close_by_status-IsClosing env actor s SubProjectStatus.reviewing db e h =
    close_open-IsClosing env actor s db h
close_by_status-IsClosing env actor s SubProjectStatus.rejected db e h =
    close_open-IsClosing env actor s db h
close_by_status-IsClosing env actor s SubProjectStatus.not_started db e h =
    close_open-IsClosing env actor s db h
close_by_status-IsClosing env actor s SubProjectStatus.in_progress db e h =
    close_open-IsClosing env actor s db h
close_by_status-IsClosing env actor s SubProjectStatus.completed db e h =
    close_open-IsClosing env actor s db h
close_by_status-IsClosing env actor s SubProjectStatus.terminated db e h =
    close_open-IsClosing env actor s db h

pub close_sub_project-IsClosing :
    (env : Env) (actor : User) (i : ℕ) (db : Db) {r : Db × SubProject}
    → close_sub_project env actor i db ≡ ok r
    → (s : SubProject) × (get_sub_project i db ≡ some s)
      × (is_dept_manager actor.role ≡ true)
      × IsClosing env actor db s r
unfolding close_sub_project
close_sub_project-IsClosing env actor i db h =
    let (manager, h1) = guard->>-eq-ok (is_dept_manager actor.role) permission_denied _ h in
    let (s, found, h2) = from_option->>=-eq-ok (get_sub_project i db) _ _ h1 in
    (s, found, manager, close_by_status-IsClosing env actor s s.status db refl h2)

pub terminate_sub_project-eq-ok :
    (env : Env) (actor : User) (i : ℕ) (db : Db) {r : Db × SubProject}
    → terminate_sub_project env actor i db ≡ ok r
    → (s : SubProject) × (get_sub_project i db ≡ some s)
      × (not (is_ended_project s.status) ≡ true)
      × (r ≡ (
        audit_sub_project
            (codes "sub_project.terminate")
            actor
            s
            (write_sub_project (ended env SubProjectStatus.terminated s) db),
        ended env SubProjectStatus.terminated s,
      ))
unfolding terminate_sub_project
terminate_sub_project-eq-ok env actor i db h =
    let (reviewer, h1) =
      guard->>-eq-ok (is_admin actor.role || is_dept_manager actor.role) permission_denied _ h in
    let (s, found, h2) = from_option->>=-eq-ok (get_sub_project i db) _ _ h1 in
    let (still, h3) = guard->>-eq-ok (not (is_ended_project s.status)) _ _ h2 in
    (s, found, still, sym (ok-injective h3))
