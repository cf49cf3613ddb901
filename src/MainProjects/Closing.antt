-- ===== src/MainProjects/Closing.antt =====
-- `close_project` and `get_progress_funnel` of `MainProjectService` in
-- backend/app/services/main_projects.py.
use project_lifecycle_manage.Base.{
  ℕ, ◌==◌, ltb, Text, codes, text_le, Bool, not, ◌&&◌, ◌||◌, Option, none, some, List, [], ◌∷◌,
  ◌++◌, find_last?, filter, count, sort_by, length, if◌then◌else◌,
}
use project_lifecycle_manage.Model.{
  Db, Env, User, MainProject, MainProjectStatus, SubProject, SubProjectStatus, Phase, PhaseStatus,
  is_open_main, is_in_progress, is_ended_project, is_completed_project, is_dept_manager,
}
use project_lifecycle_manage.Errors.{
  Result, ok, permission_denied, business, main_project_status, open_sub_projects, guard, ◌>>=◌,
  ◌>>◌,
}
use project_lifecycle_manage.Queries.{existing_main_project}
use project_lifecycle_manage.MainProjects.Creation.{write_main_project}

-- Neither closed nor terminated nor completed.
abbrev pub is_open_sub : SubProjectStatus → Bool
is_open_sub status = not (is_ended_project status || is_completed_project status)

unfoldable pub count_open_sub_projects : ℕ → Db → ℕ
count_open_sub_projects m db =
    count (λ s. s.main_project_id == m && is_open_sub s.status) db.sub_projects

abbrev pub closed_main : Env → MainProject → MainProject
closed_main env m = record m {
  status = MainProjectStatus.closed;
  closed_at = some env.now;
  updated_at = env.now;
}

abbrev pub restamped_main : Env → Option ℕ → MainProject → MainProject
restamped_main env none m = record m { closed_at = some env.now; updated_at = env.now }
restamped_main env (some t) m = m

abbrev pub close_open_main : Env → MainProject → Db → Result (Db × MainProject)
close_open_main env m db = do
  guard (is_open_main m.status) (business (main_project_status m.status))
  guard (not (ltb 0 (count_open_sub_projects m.id db)))
      (business (open_sub_projects (count_open_sub_projects m.id db)))
  ok (write_main_project (closed_main env m) db, closed_main env m)

abbrev pub close_main_by_status :
    Env → MainProject → MainProjectStatus → Db → Result (Db × MainProject)
close_main_by_status env m MainProjectStatus.closed db =
    ok (write_main_project (restamped_main env m.closed_at m) db, restamped_main env m.closed_at m)
close_main_by_status env m _ db = close_open_main env m db

unfoldable pub close_project : Env → User → ℕ → Db → Result (Db × MainProject)
close_project env actor i db = do
  guard (is_dept_manager actor.role) permission_denied
  m ← existing_main_project i db
  close_main_by_status env m m.status db

pub record ProgressFunnelSubProject : Type 0 where
  pub id : ℕ
  pub project_no : Text
  pub name : Text
  pub status : SubProjectStatus
  pub phase_status : PhaseStatus

pub record ProgressFunnelItem : Type 0 where
  pub phase_no : ℕ
  pub code : Text
  pub sub_project_count : ℕ
  pub sub_projects : List ProgressFunnelSubProject

-- `phases_by_sub_project[s][n]`: the last phase with that key.
unfoldable pub indexed_phase : ℕ → ℕ → List Phase → Option Phase
indexed_phase s n phases = find_last? (λ p. p.sub_project_id == s && p.phase_no == n) phases

abbrev drill_item : SubProject → Option Phase → List ProgressFunnelSubProject
drill_item s none = []
drill_item s (some p) =
    if is_in_progress p.status
    then record {
      id = s.id;
      project_no = s.project_no;
      name = s.name;
      status = s.status;
      phase_status = p.status;
    }
      ∷ []
    else []

unfoldable pub drill_items : ℕ → List Phase → List SubProject → List ProgressFunnelSubProject
unfolding indexed_phase
drill_items n phases [] = []
drill_items n phases (s ∷ ss) =
    drill_item s (indexed_phase s.id n phases) ++ drill_items n phases ss

unfoldable pub build_progress_funnel_item :
    Text → List Phase → List SubProject → ℕ → ProgressFunnelItem
unfolding drill_items
build_progress_funnel_item code phases ss n = record {
  phase_no = n;
  code = code;
  sub_project_count = length (drill_items n phases ss);
  sub_projects = drill_items n phases ss;
}

abbrev pub sub_projects_of : ℕ → Db → List SubProject
sub_projects_of m db =
    sort_by (λ a b. text_le a.project_no b.project_no)
      (filter (λ s. s.main_project_id == m) db.sub_projects)

unfoldable pub get_progress_funnel : ℕ → Db → Result (List ProgressFunnelItem)
get_progress_funnel i db = do
  m ← existing_main_project i db
  let item : Text → ℕ → ProgressFunnelItem =
      λ code n. build_progress_funnel_item code db.phases (sub_projects_of i db) n
  ok (
      item (codes "initiation") 1
      ∷ item (codes "procurement") 2
      ∷ item (codes "contract") 3
      ∷ item (codes "acceptance") 4
      ∷ item (codes "payment") 5
      ∷ item (codes "post_review") 6
      ∷ [])
