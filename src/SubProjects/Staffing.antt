-- ===== src/SubProjects/Staffing.antt =====
-- What the calls of `SubProjectService` in backend/app/services/sub_projects.py on members and leaders
-- have checked when they return, and what they return.
use project_lifecycle_manage.Base.{
  ℕ, ◌==◌, true, not, ◌&&◌, ◌||◌, Option, some, codes, ◌≡◌, sym, is_some,
}
use project_lifecycle_manage.Model.{
  Db, Env, User, SubProject, SubProjectMember, SubProjectMemberRole, is_active_handover,
  is_locked_project, is_leader_role, is_admin, is_proj_leader, is_proj_member, is_active_user,
}
use project_lifecycle_manage.Errors.{
  ok, permission_denied, conflict, ok-injective, guard->>-eq-ok, from_option->>=-eq-ok,
}
use project_lifecycle_manage.Queries.{get_sub_project, get_member, get_user}
use project_lifecycle_manage.SubProjects.Creation.{new_member}
use project_lifecycle_manage.SubProjects.Members.{
  leads, audit_member, insert_member, add_sub_project_member, delete_member,
  remove_sub_project_member, SubProjectHandoverRequest, handover_sub_project, is_expected,
  hand_over, with_manager, announce_handover,
}

pub record IsAdded (env : Env) (actor : User) (i user_id : ℕ) (db : Db) (r : Db × SubProjectMember)
    : Type 0 where
  pub s : SubProject
  pub user : User
  pub found : get_sub_project i db ≡ some s
  pub leader : leads actor s ≡ true
  pub unlocked : not (is_locked_project s.status) ≡ true
  pub known : get_user user_id db ≡ some user
  pub eligible : is_active_user user.status && is_proj_member user.role ≡ true
  pub new : not (is_some (get_member s.id user_id db)) ≡ true
  pub returned : r ≡ (
    audit_member
        (codes "sub_project_member.add")
        actor
        (env.uuid 0)
        (insert_member (new_member env 0 s.id user_id SubProjectMemberRole.proj_member) db),
    new_member env 0 s.id user_id SubProjectMemberRole.proj_member,
  )

pub add_sub_project_member-IsAdded :
    (env : Env) (actor : User) (i user_id : ℕ) (db : Db) {r : Db × SubProjectMember}
    → add_sub_project_member env actor i user_id db ≡ ok r
    → IsAdded env actor i user_id db r
unfolding add_sub_project_member
add_sub_project_member-IsAdded env actor i user_id db h =
    let (s, found, h1) = from_option->>=-eq-ok (get_sub_project i db) _ _ h in
    let (leader, h2) = guard->>-eq-ok (leads actor s) permission_denied _ h1 in
    let (unlocked, h3) = guard->>-eq-ok (not (is_locked_project s.status)) _ _ h2 in
    let (user, known, h4) = from_option->>=-eq-ok (get_user user_id db) _ _ h3 in
    let (eligible, h5) =
      guard->>-eq-ok (is_active_user user.status && is_proj_member user.role) _ _ h4 in
    let (new, h6) = guard->>-eq-ok (not (is_some (get_member s.id user_id db))) conflict _ h5 in
    record {
      s = s;
      user = user;
      found = found;
      leader = leader;
      unlocked = unlocked;
      known = known;
      eligible = eligible;
      new = new;
      returned = sym (ok-injective h6);
    }

pub remove_sub_project_member-eq-ok :
    (actor : User) (i user_id : ℕ) (db : Db) {r : Db × SubProjectMember}
    → remove_sub_project_member actor i user_id db ≡ ok r
    → (s : SubProject) × (m : SubProjectMember) × (get_sub_project i db ≡ some s)
      × (get_member s.id user_id db ≡ some m)
      × (not (m.user_id == actor.id || is_leader_role m.role_in_project) ≡ true)
      × (r ≡ (audit_member (codes "sub_project_member.remove") actor m.id (delete_member m db), m))
unfolding remove_sub_project_member
remove_sub_project_member-eq-ok actor i user_id db h =
    let (s, found, h1) = from_option->>=-eq-ok (get_sub_project i db) _ _ h in
    let (leader, h2) = guard->>-eq-ok (leads actor s) permission_denied _ h1 in
    let (unlocked, h3) = guard->>-eq-ok (not (is_locked_project s.status)) _ _ h2 in
    let (m, row, h4) = from_option->>=-eq-ok (get_member s.id user_id db) _ _ h3 in
    let (removable, h5) =
      guard->>-eq-ok (not (m.user_id == actor.id || is_leader_role m.role_in_project)) _ _ h4 in
    (s, m, found, row, removable, sym (ok-injective h5))

-- What a handover has checked, and what it returns.
pub record IsHandedOver (env : Env) (actor : User) (i : ℕ) (payload : SubProjectHandoverRequest)
    (expected : Option ℕ) (db : Db) (r : Db × SubProject) : Type 0 where
  pub s : SubProject
  pub to_user : User
  pub administrator : is_admin actor.role ≡ true
  pub found : get_sub_project i db ≡ some s
  pub active : is_active_handover s.status ≡ true
  pub agreed : is_expected expected s.manager_id ≡ true
  pub other : not (payload.to_user_id == s.manager_id) ≡ true
  pub known : get_user payload.to_user_id db ≡ some to_user
  pub eligible : is_proj_leader to_user.role && is_active_user to_user.status ≡ true
  pub returned : r ≡ (
    announce_handover actor s.manager_id
        (with_manager env payload.to_user_id s)
        (hand_over env actor s payload db),
    with_manager env payload.to_user_id s,
  )

pub handover_sub_project-IsHandedOver :
    (env : Env) (actor : User) (i : ℕ) (payload : SubProjectHandoverRequest) (expected : Option ℕ)
    (db : Db) {r : Db × SubProject}
    → handover_sub_project env actor i payload expected db ≡ ok r
    → IsHandedOver env actor i payload expected db r
unfolding handover_sub_project
handover_sub_project-IsHandedOver env actor i payload expected db h =
    let (administrator, h1) = guard->>-eq-ok (is_admin actor.role) permission_denied _ h in
    let (s, found, h2) = from_option->>=-eq-ok (get_sub_project i db) _ _ h1 in
    let (active, h3) = guard->>-eq-ok (is_active_handover s.status) _ _ h2 in
    let (agreed, h4) = guard->>-eq-ok (is_expected expected s.manager_id) _ _ h3 in
    let (other, h5) = guard->>-eq-ok (not (payload.to_user_id == s.manager_id)) _ _ h4 in
    let (to_user, known, h6) = from_option->>=-eq-ok (get_user payload.to_user_id db) _ _ h5 in
    let (eligible, h7) =
      guard->>-eq-ok (is_proj_leader to_user.role && is_active_user to_user.status) _ _ h6 in
    record {
      s = s;
      to_user = to_user;
      administrator = administrator;
      found = found;
      active = active;
      agreed = agreed;
      other = other;
      known = known;
      eligible = eligible;
      returned = sym (ok-injective h7);
    }
