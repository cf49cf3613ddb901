-- ===== src/Queries.antt =====
-- The SELECTs that several repositories share (SqlAlchemyPhaseRepository and its siblings in
-- backend/app/services), and the UPDATE of a row by its primary key.
use project_lifecycle_manage.Base.{
  ℕ, ◌==◌, List, [], Option, none, some, Bool, true, false, not, ◌&&◌, ◌||◌, find?, filter, put,
  sort_by, leb, map, if◌then◌else◌, ◌++◌, ◌∷◌, Text, text_le,
}
use project_lifecycle_manage.Model.{
  Db, UserRole, Phase, SubProject, MainProject, SubProjectMember, Document, Task, Notice,
  is_active_user, User,
}
use project_lifecycle_manage.Errors.{
  Result, from_option, not_found, no_phase, no_sub_project, no_main_project,
}

-- `session.get(Phase, id)`; the other `get_...` are alike.
unfoldable pub get_phase : ℕ → Db → Option Phase
get_phase i db = find? (λ p. p.id == i) db.phases

unfoldable pub get_sub_project : ℕ → Db → Option SubProject
get_sub_project i db = find? (λ s. s.id == i) db.sub_projects

unfoldable pub get_main_project : ℕ → Db → Option MainProject
get_main_project i db = find? (λ m. m.id == i) db.main_projects

unfoldable pub get_member : ℕ → ℕ → Db → Option SubProjectMember
get_member s u db = find? (λ m. m.sub_project_id == s && m.user_id == u) db.members

abbrev pub existing_phase : ℕ → Db → Result Phase
existing_phase i db = from_option (get_phase i db) (not_found no_phase)

abbrev pub existing_sub_project : ℕ → Db → Result SubProject
existing_sub_project i db = from_option (get_sub_project i db) (not_found no_sub_project)

abbrev pub existing_main_project : ℕ → Db → Result MainProject
existing_main_project i db = from_option (get_main_project i db) (not_found no_main_project)

-- The phases of a sub project, by number.
unfoldable pub phases_in : ℕ → List Phase → List Phase
phases_in s phases =
    sort_by (λ a b. leb a.phase_no b.phase_no) (filter (λ p. p.sub_project_id == s) phases)

abbrev pub list_phases : ℕ → Db → List Phase
list_phases s db = phases_in s db.phases

-- `list_latest_documents_for_update`
unfoldable pub latest_documents : ℕ → Db → List Document
latest_documents p db =
    filter (λ d. d.phase_id == p && (d.is_latest && not d.is_deleted)) db.documents

-- By type, and the latest first.
abbrev listed_before : Document → Document → Bool
listed_before a b =
    text_le a.doc_type b.doc_type
    && (not (text_le b.doc_type a.doc_type) || leb b.created_at a.created_at)

unfoldable pub list_latest_documents : ℕ → Db → List Document
unfolding latest_documents
list_latest_documents p db = sort_by listed_before (latest_documents p db)

unfoldable pub list_phase_tasks : ℕ → Db → List Task
list_phase_tasks p db = filter (λ t. t.phase_id == p) db.tasks

-- `dept_id is None or user.dept_id == dept_id`
abbrev in_dept : Option ℕ → Option ℕ → Bool
in_dept none mine = true
in_dept (some d) none = false
in_dept (some d) (some m) = m == d

-- `list_active_user_ids_by_role`, with the test of the role and the optional department.
unfoldable pub list_active_user_ids_by_role : (UserRole → Bool) → Option ℕ → Db → List ℕ
list_active_user_ids_by_role has_role dept db =
    map (λ u. u.id)
      (filter (λ u. has_role u.role && (is_active_user u.status && in_dept dept u.dept_id))
        db.users)

abbrev pub save_phase : Phase → List Phase → List Phase
save_phase p ps = put (λ r. r.id == p.id) p ps

abbrev pub save_sub_project : SubProject → List SubProject → List SubProject
save_sub_project s ss = put (λ r. r.id == s.id) s ss

abbrev pub save_main_project : MainProject → List MainProject → List MainProject
save_main_project m ms = put (λ r. r.id == m.id) m ms

unfoldable pub contains : ℕ → List ℕ → Bool
contains a [] = false
contains a (x ∷ xs) = a == x || contains a xs

-- The loop of `_unique_receivers`: `seen` holds what was kept.
unfoldable pub unique_from : List ℕ → List ℕ → List ℕ
unfolding contains
unique_from seen [] = []
unique_from seen (r ∷ rs) =
    let skip = unique_from seen rs in
    let keep = r ∷ unique_from (r ∷ seen) rs in if contains r seen then skip else keep

unfoldable pub unique_receivers : List ℕ → List ℕ
unfolding unique_from
unique_receivers rs = unique_from [] rs

unfoldable pub send : Notice → Db → Db
send n db = record db { notices = db.notices ++ n ∷ [] }

-- `if not receivers: return`, and the call.
abbrev notices_for : Text → List ℕ → ℕ → List Notice
notices_for scenario [] source_id = []
notices_for scenario (r ∷ rs) source_id =
    record { scenario = scenario; receivers = r ∷ rs; source_id = source_id } ∷ []

abbrev pub notify : Text → List ℕ → ℕ → Db → Db
notify scenario receivers source_id db = record db {
  notices = db.notices ++ notices_for scenario receivers source_id;
}

abbrev pub record_audit : User → Text → Text → ℕ → Db → Db
record_audit actor action target_type target_id db = record db {
  audit_entries =
      db.audit_entries
      ++ record {
        actor_id = actor.id;
        action = action;
        target_type = target_type;
        target_id = target_id;
      }
        ∷ [];
}

unfoldable pub get_user : ℕ → Db → Option User
get_user i db = find? (λ u. u.id == i) db.users

-- `column == user.id`, where the column may be NULL.
abbrev pub is_user : Option ℕ → ℕ → Bool
is_user none i = false
is_user (some j) i = j == i
