-- ===== src/MainProjects/Effects.antt =====
-- What a call of `MainProjectService` in backend/app/services/main_projects.py that returns has
-- checked, and what it returns.
use project_lifecycle_manage.Base.{ℕ, ltb, true, not, ◌||◌, some, ◌≡◌, refl, sym, arith}
use project_lifecycle_manage.Model.{
  Db, Env, User, MainProject, MainProjectStatus, is_open_main, is_pending_main, is_rejected_main,
  is_admin, is_dept_manager,
}
use project_lifecycle_manage.Errors.{
  ok, permission_denied, self_review_denied, integrity_error, ok-injective, guard->>-eq-ok,
  from_option->>=-eq-ok,
}
use project_lifecycle_manage.Queries.{get_main_project, is_user}
use project_lifecycle_manage.MainProjects.Creation.{
  MainProjectCreate, MainProjectUpdate, create_project, insert_main_project, new_main_project,
  update_project, updated_main_project, write_main_project, submit_project, submitted_main_project,
  announce_project,
}
use project_lifecycle_manage.MainProjects.Review.{
  MainProjectReviewRequest, review_project, reviewed_main_project, record_project_review,
  announce_project_review, may_review, has_null,
}
use project_lifecycle_manage.MainProjects.Closing.{
  close_project, close_main_by_status, close_open_main, closed_main, restamped_main,
  count_open_sub_projects,
}

pub create_project-eq-ok :
    (env : Env) (actor : User) (payload : MainProjectCreate) (db : Db) {r : Db × MainProject}
    → create_project env actor payload db ≡ ok r
    → (is_dept_manager actor.role ≡ true)
      × (r ≡ (
        insert_main_project (new_main_project env actor payload db.main_project_no_seq) db,
        new_main_project env actor payload db.main_project_no_seq,
      ))
unfolding create_project
create_project-eq-ok env actor payload db h =
    let (manager, h1) = guard->>-eq-ok (is_dept_manager actor.role) permission_denied _ h in
    (manager, sym (ok-injective h1))

pub update_project-eq-ok :
    (env : Env) (actor : User) (i : ℕ) (payload : MainProjectUpdate) (db : Db)
    {r : Db × MainProject}
    → update_project env actor i payload db ≡ ok r
    → (m : MainProject) × (get_main_project i db ≡ some m)
      × (is_user m.creator_id actor.id ≡ true)
      × (is_rejected_main m.status ≡ true)
      × (r ≡ (
        write_main_project (updated_main_project env payload m) db,
        updated_main_project env payload m,
      ))
unfolding update_project
update_project-eq-ok env actor i payload db h =
    let (m, found, h1) = from_option->>=-eq-ok (get_main_project i db) _ _ h in
    let (own, h2) = guard->>-eq-ok (is_user m.creator_id actor.id) permission_denied _ h1 in
    let (rejected, h3) = guard->>-eq-ok (is_rejected_main m.status) _ _ h2 in
    (m, found, own, rejected, sym (ok-injective h3))

pub submit_project-eq-ok :
    (env : Env) (actor : User) (i : ℕ) (db : Db) {r : Db × MainProject}
    → submit_project env actor i db ≡ ok r
    → (m : MainProject) × (get_main_project i db ≡ some m)
      × (is_user m.creator_id actor.id ≡ true)
      × (is_pending_main m.status || is_rejected_main m.status ≡ true)
      × (r ≡ (
        announce_project actor
            (submitted_main_project env m)
            (write_main_project (submitted_main_project env m) db),
        submitted_main_project env m,
      ))
unfolding submit_project
submit_project-eq-ok env actor i db h =
    let (m, found, h1) = from_option->>=-eq-ok (get_main_project i db) _ _ h in
    let (own, h2) = guard->>-eq-ok (is_user m.creator_id actor.id) permission_denied _ h1 in
    let (still, h3) =
      guard->>-eq-ok (is_pending_main m.status || is_rejected_main m.status) _ _ h2 in
    (m, found, own, still, sym (ok-injective h3))

pub review_project-eq-ok :
    (env : Env) (actor : User) (i : ℕ) (payload : MainProjectReviewRequest) (db : Db)
    {r : Db × MainProject}
    → review_project env actor i payload db ≡ ok r
    → (m : MainProject) × (get_main_project i db ≡ some m)
      × (is_admin actor.role || is_dept_manager actor.role ≡ true)
      × (may_review actor m db ≡ true)
      × (is_pending_main m.status ≡ true)
      × (r ≡ (
        announce_project_review actor
            (reviewed_main_project env payload m)
            (record_project_review env actor m payload db),
        reviewed_main_project env payload m,
      ))
unfolding review_project
review_project-eq-ok env actor i payload db h =
    let (reviewer, h1) =
      guard->>-eq-ok (is_admin actor.role || is_dept_manager actor.role) permission_denied _ h in
    let (m, found, h2) = from_option->>=-eq-ok (get_main_project i db) _ _ h1 in
    let (allowed, h3) = guard->>-eq-ok (may_review actor m db) self_review_denied _ h2 in
    let (pending, h4) = guard->>-eq-ok (is_pending_main m.status) _ _ h3 in
    let (complete, h5) = guard->>-eq-ok (not (has_null payload.updates)) integrity_error _ h4 in
    (m, found, reviewer, allowed, pending, sym (ok-injective h5))

-- A close either stamps a closed main project or closes one without open sub projects.
pub data IsMainClosing (env : Env) (db : Db) (m : MainProject) (r : Db × MainProject) : Type 0 where
  restamps_main :
      m.status ≡ MainProjectStatus.closed
      → r ≡ (
        write_main_project (restamped_main env m.closed_at m) db,
        restamped_main env m.closed_at m,
      )
      → IsMainClosing env db m r
  ends_main :
      is_open_main m.status ≡ true
      → count_open_sub_projects m.id db ≡ 0
      → r ≡ (write_main_project (closed_main env m) db, closed_main env m)
      → IsMainClosing env db m r

close_open_main-IsMainClosing :
    (env : Env) (m : MainProject) (db : Db) {r : Db × MainProject}
    → close_open_main env m db ≡ ok r
    → IsMainClosing env db m r
close_open_main-IsMainClosing env m db h =
    let (still, h1) = guard->>-eq-ok (is_open_main m.status) _ _ h in
    let (none_open, h2) = guard->>-eq-ok (not (ltb 0 (count_open_sub_projects m.id db))) _ _ h1 in
    ends_main still (ground (arith, none_open)) (sym (ok-injective h2))

close_main_by_status-IsMainClosing :
    (env : Env) (m : MainProject) (t : MainProjectStatus) (db : Db) {r : Db × MainProject}
    → m.status ≡ t
    → close_main_by_status env m t db ≡ ok r
    → IsMainClosing env db m r
close_main_by_status-IsMainClosing env m MainProjectStatus.closed db e h =
    restamps_main e (sym (ok-injective h))
close_main_by_status-IsMainClosing env m MainProjectStatus.pending_review db e h =
    close_open_main-IsMainClosing env m db h
close_main_by_status-IsMainClosing env m MainProjectStatus.reviewing db e h =
    close_open_main-IsMainClosing env m db h
close_main_by_status-IsMainClosing env m MainProjectStatus.rejected db e h =
    close_open_main-IsMainClosing env m db h
close_main_by_status-IsMainClosing env m MainProjectStatus.not_started db e h =
    close_open_main-IsMainClosing env m db h
close_main_by_status-IsMainClosing env m MainProjectStatus.in_progress db e h =
    close_open_main-IsMainClosing env m db h
close_main_by_status-IsMainClosing env m MainProjectStatus.completed db e h =
    close_open_main-IsMainClosing env m db h

pub close_project-IsMainClosing :
    (env : Env) (actor : User) (i : ℕ) (db : Db) {r : Db × MainProject}
    → close_project env actor i db ≡ ok r
    → (m : MainProject) × (get_main_project i db ≡ some m)
      × (is_dept_manager actor.role ≡ true)
      × IsMainClosing env db m r
unfolding close_project
close_project-IsMainClosing env actor i db h =
    let (manager, h1) = guard->>-eq-ok (is_dept_manager actor.role) permission_denied _ h in
    let (m, found, h2) = from_option->>=-eq-ok (get_main_project i db) _ _ h1 in
    (m, found, manager, close_main_by_status-IsMainClosing env m m.status db refl h2)
