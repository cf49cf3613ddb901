-- ===== src/SubProjects/Members.antt =====
-- The members of a sub project and its handover: `add_sub_project_member`,
-- `remove_sub_project_member`, `handover_sub_project` and `batch_handover_sub_projects` of
-- `SubProjectService` in backend/app/services/sub_projects.py.
use project_lifecycle_manage.Base.{
  ℕ, ◌==◌, leb, Text, codes, Bool, true, false, not, ◌&&◌, ◌||◌, Option, none, some, List, [], ◌∷◌,
  ◌++◌, map, filter, put, sort_by, is_some, if◌then◌else◌,
}
use project_lifecycle_manage.Model.{
  Db, Env, User, SubProject, SubProjectMember, SubProjectMemberRole, SubProjectHandover,
  is_locked_project, is_active_handover, is_leader_role, is_admin, is_proj_leader, is_proj_member,
  is_active_user, is_disabled,
}
use project_lifecycle_manage.Errors.{
  Result, ok, err, permission_denied, conflict, not_found, no_user, no_member, no_new_leader,
  business, project_locked, sub_project_status, not_active_member, leader_not_removable,
  manager_mismatch, same_manager, not_active_leader, guard, from_option, ◌>>=◌, ◌>>◌,
}
use project_lifecycle_manage.Queries.{
  existing_sub_project, get_member, get_user, save_sub_project, notify, record_audit,
}
use project_lifecycle_manage.SubProjects.Creation.{new_member}

abbrev pub leads : User → SubProject → Bool
leads actor s = is_proj_leader actor.role && s.manager_id == actor.id

abbrev pub audit_member : Text → User → ℕ → Db → Db
audit_member action actor i db = record_audit actor action (codes "sub_project_member") i db

abbrev pub insert_member : SubProjectMember → Db → Db
insert_member m db = record db { members = db.members ++ m ∷ [] }

unfoldable pub add_sub_project_member : Env → User → ℕ → ℕ → Db → Result (Db × SubProjectMember)
add_sub_project_member env actor i user_id db = do
  s ← existing_sub_project i db
  guard (leads actor s) permission_denied
  guard (not (is_locked_project s.status)) (business (project_locked s.status))
  user ← from_option (get_user user_id db) (not_found no_user)
  guard (is_active_user user.status && is_proj_member user.role)
      (business (not_active_member user.status user.role))
  guard (not (is_some (get_member s.id user_id db))) conflict
  ok (
    audit_member (codes "sub_project_member.add") actor (env.uuid 0)
        (insert_member (new_member env 0 s.id user_id SubProjectMemberRole.proj_member) db),
    new_member env 0 s.id user_id SubProjectMemberRole.proj_member,
  )

abbrev pub delete_member : SubProjectMember → Db → Db
delete_member m db = record db { members = filter (λ r. not (r.id == m.id)) db.members }

unfoldable pub remove_sub_project_member : User → ℕ → ℕ → Db → Result (Db × SubProjectMember)
remove_sub_project_member actor i user_id db = do
  s ← existing_sub_project i db
  guard (leads actor s) permission_denied
  guard (not (is_locked_project s.status)) (business (project_locked s.status))
  m ← from_option (get_member s.id user_id db) (not_found no_member)
  guard (not (m.user_id == actor.id || is_leader_role m.role_in_project))
      (business (leader_not_removable user_id))
  ok (audit_member (codes "sub_project_member.remove") actor m.id (delete_member m db), m)

pub record SubProjectHandoverRequest : Type 0 where
  pub to_user_id : ℕ
  pub reason : Text

abbrev pub with_role : SubProjectMemberRole → SubProjectMember → SubProjectMember
with_role role m = record m { role_in_project = role }

abbrev pub write_member : SubProjectMember → Db → Db
write_member m db = record db { members = put (λ r. r.id == m.id) m db.members }

abbrev pub demote : Option SubProjectMember → Db → Db
demote none db = db
demote (some m) db = write_member (with_role SubProjectMemberRole.proj_member m) db

abbrev pub promote : Env → ℕ → ℕ → Option SubProjectMember → Db → Db
promote env s new none db =
    insert_member (new_member env 0 s new SubProjectMemberRole.proj_leader) db
promote env s new (some m) db = write_member (with_role SubProjectMemberRole.proj_leader m) db

-- `_upsert_handover_members` of sub project `s`.
unfoldable pub upsert_handover_members : Env → ℕ → (old new : ℕ) → Db → Db
upsert_handover_members env s old new db =
    let demoted = demote (get_member s old db) db in
    promote env s new (get_member s new demoted) demoted

-- The handover row takes the draw that the member row leaves.
abbrev pub draw_after : Option SubProjectMember → ℕ
draw_after none = 1
draw_after (some m) = 0

unfoldable pub new_handover :
    Env → ℕ → User → SubProject → SubProjectHandoverRequest → SubProjectHandover
new_handover env draw actor s payload = record {
  id = env.uuid draw;
  sub_project_id = s.id;
  from_user_id = s.manager_id;
  to_user_id = payload.to_user_id;
  reason = payload.reason;
  operator_id = actor.id;
  operated_at = env.now;
}

abbrev pub with_manager : Env → ℕ → SubProject → SubProject
with_manager env u s = record s { manager_id = u; updated_at = env.now }

-- What the commit of a handover writes.
unfoldable pub hand_over : Env → User → SubProject → SubProjectHandoverRequest → Db → Db
unfolding upsert_handover_members
hand_over env actor s payload db = record db {
  members = (upsert_handover_members env s.id s.manager_id payload.to_user_id db).members;
  sub_projects = save_sub_project (with_manager env payload.to_user_id s) db.sub_projects;
  sub_project_handovers =
      db.sub_project_handovers
      ++ new_handover env (draw_after (get_member s.id payload.to_user_id db)) actor s payload ∷ [];
}

-- `role_in_project ASC, joined_at ASC`: leaders first.
abbrev listed_before : SubProjectMember → SubProjectMember → Bool
listed_before a b =
    if is_leader_role a.role_in_project
    then not (is_leader_role b.role_in_project) || leb a.joined_at b.joined_at
    else not (is_leader_role b.role_in_project) && leb a.joined_at b.joined_at

unfoldable pub list_members : ℕ → Db → List SubProjectMember
list_members s db = sort_by listed_before (filter (λ m. m.sub_project_id == s) db.members)

abbrev pub is_enabled : Option User → Bool
is_enabled none = false
is_enabled (some u) = not (is_disabled u.status)

unfoldable pub active_member_ids : ℕ → Db → List ℕ
unfolding list_members get_user
active_member_ids s db =
    map (λ m. m.user_id) (filter (λ m. is_enabled (get_user m.user_id db)) (list_members s db))

abbrev handover_receivers : Option User → ℕ → List ℕ → List ℕ
handover_receivers none to members = to ∷ members
handover_receivers (some u) to members =
    if is_disabled u.status then to ∷ members else u.id ∷ to ∷ members

abbrev pub announce_handover : User → ℕ → SubProject → Db → Db
announce_handover actor old s db =
    record_audit actor (codes "sub_project.handover") (codes "sub_project") s.id (
      notify (codes "handover_completed")
        (handover_receivers (get_user old db) s.manager_id (active_member_ids s.id db)) s.id db)

abbrev pub is_expected : Option ℕ → ℕ → Bool
is_expected none manager = true
is_expected (some u) manager = manager == u

abbrev expected_id : Option ℕ → ℕ
expected_id none = 0
expected_id (some u) = u

unfoldable pub handover_sub_project :
    Env → User → ℕ → SubProjectHandoverRequest → Option ℕ → Db → Result (Db × SubProject)
handover_sub_project env actor i payload expected db = do
  guard (is_admin actor.role) permission_denied
  s ← existing_sub_project i db
  guard (is_active_handover s.status) (business (sub_project_status s.status))
  guard (is_expected expected s.manager_id)
      (business (manager_mismatch s.id (expected_id expected) s.manager_id))
  guard (not (payload.to_user_id == s.manager_id)) (business (same_manager payload.to_user_id))
  to_user ← from_option (get_user payload.to_user_id db) (not_found no_new_leader)
  guard (is_proj_leader to_user.role && is_active_user to_user.status)
      (business (not_active_leader to_user.status to_user.role))
  ok (
    announce_handover actor s.manager_id (with_manager env payload.to_user_id s)
        (hand_over env actor s payload db),
    with_manager env payload.to_user_id s,
  )

pub record SubProjectBatchHandoverItem : Type 0 where
  pub sub_project_id : ℕ
  pub request : SubProjectHandoverRequest

-- What follows one handover of a batch, where `next` hands over the items after it.
abbrev pub after_handover :
    (Db → Db × Result (List SubProject))
    → Db
    → Result (Db × SubProject)
    → Db × Result (List SubProject)
after_handover next db (err e) = (db, err e)
after_handover next db (ok r) = ((next r.0).0, ((next r.0).1 >>= λ ss. ok (r.1 ∷ ss)))

-- Each item commits by itself, so a batch that fails leaves the handovers before the failure: the
-- database comes back beside the result. Each item has the clock and the draws of its turn.
unfoldable pub batch_handovers :
    User → ℕ → List (Env × SubProjectBatchHandoverItem) → Db → Db × Result (List SubProject)
batch_handovers actor from [] db = (db, ok [])
batch_handovers actor from ((env, item) ∷ items) db =
    after_handover (batch_handovers actor from items) db
      (handover_sub_project env actor item.sub_project_id item.request (some from) db)

abbrev pub batch_handover_sub_projects :
    User → ℕ → List (Env × SubProjectBatchHandoverItem) → Db → Db × Result (List SubProject)
batch_handover_sub_projects actor from items db =
    if is_admin actor.role then batch_handovers actor from items db else (db, err permission_denied)
