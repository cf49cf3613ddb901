-- ===== src/Tests/Portfolios.antt =====
-- Runs of the main project and sub project services (backend/app/services/main_projects.py and
-- sub_projects.py): a sub project is created, approved, handed over, closed or terminated.
use project_lifecycle_manage.Base.{
  ℕ, ◌+◌, ◌==◌, true, false, not, ◌||◌, none, some, [], ◌∷◌, ◌++◌, ◌≡◌, refl, arith, codes, pos,
  find?, find?-all, all, distinct, leb_ℤ, ◌+ℤ◌, any, count, put,
}
use project_lifecycle_manage.Model.{
  Db, Env, User, dept_manager, proj_leader, MainProject, SubProject, SubProjectStatus,
  SubProjectMember, Phase, PhaseStatus, ProjectReviewDecision, is_ended_project, is_closed_main,
  is_completed, is_leader_role, SubProjectHandover,
}
use project_lifecycle_manage.Errors.{ok, err, not_found, no_sub_project}
use project_lifecycle_manage.Queries.{get_sub_project, get_main_project, get_member, get_user}
use project_lifecycle_manage.SubProjects.Creation.{
  SubProjectCreate, create_sub_project, next_sub_project_sequence, new_sub_project, new_member,
}
use project_lifecycle_manage.SubProjects.Review.{
  SubProjectReviewRequest, review_sub_project, validate_over_budget, sum_approved_budget,
  phases_fit, created_phases, phases_from,
}
use project_lifecycle_manage.SubProjects.Closing.{
  close_sub_project, terminate_sub_project, phase_count, incomplete_count,
}
use project_lifecycle_manage.SubProjects.Members.{
  SubProjectHandoverRequest, SubProjectBatchHandoverItem, handover_sub_project, batch_handovers,
  hand_over,
}
use project_lifecycle_manage.Numbering.{sequence_of, sub_separator}
use project_lifecycle_manage.SubProjects.Numbers.{counters_positive, create_sub_project_number}
use project_lifecycle_manage.SubProjects.Approval.{IsApproved, review_sub_project-IsApproved}
use project_lifecycle_manage.SubProjects.Budget.{allocated, review_sub_project_budget}
use project_lifecycle_manage.SubProjects.Ending.{close_sub_project_demands}
use project_lifecycle_manage.SubProjects.Leaders.{
  leads_alone, member_rows_unique, handover_sub_project_leads,
}
use project_lifecycle_manage.SubProjects.Handovers.{batch_handovers_fails}
use project_lifecycle_manage.MainProjects.Closing.{close_project, count_open_sub_projects}
use project_lifecycle_manage.Portfolio.{
  ◌⇒*◌, creates, reviews, hands_over, terminates, concludes, stay, and_then,
}
use project_lifecycle_manage.Portfolio.Lifecycle.{◌↝*◌}
use project_lifecycle_manage.Portfolio.Refinement.{reachable_lifecycle}
use project_lifecycle_manage.Portfolio.Closure.{IsClosedSettled, reachable-IsClosedSettled}
use project_lifecycle_manage.Tests.Data.{value, env, user_of, leader, boss, main, db, sub}
use project_lifecycle_manage.Payments.Service.{sum_by}

abbrev pub manager : User
manager = user_of 4 dept_manager

abbrev pub second_leader : User
second_leader = user_of 6 proj_leader

abbrev start : Db
start = record db {
  users = leader ∷ boss ∷ manager ∷ second_leader ∷ [];
  sub_projects = [];
  phases = [];
}

abbrev pub proposal : SubProjectCreate
proposal = record {
  name = codes "new";
  main_project_id = 5;
  dept_id = 1;
  budget = pos 70000;
  plan_end_date = none;
  workflow_template_version_id = none;
  remark = none;
}

abbrev created : Db × SubProject
created = value (start, sub) (create_sub_project env leader proposal start)

creates1 : create_sub_project env leader proposal start ≡ ok created
unfolding create_sub_project get_main_project find?
creates1 = refl

abbrev pub approval : SubProjectReviewRequest
approval = record {
  decision = ProjectReviewDecision.approve;
  review_comment = none;
  confirm_over_budget = false;
  over_budget_reason = none;
}

abbrev pub approved : Db × SubProject
approved = value created (review_sub_project env boss 1000 approval created.0)

reviews1 : review_sub_project env boss 1000 approval created.0 ≡ ok approved
unfolding review_sub_project get_sub_project find? create_sub_project get_main_project
    new_sub_project validate_over_budget ◌+ℤ◌ sum_approved_budget sum_by phases_fit all
    created_phases phases_from distinct any
reviews1 = refl

review_sub_project-IsApproved_example : IsApproved env boss 1000 created.0 approved
review_sub_project-IsApproved_example =
    review_sub_project-IsApproved env boss 1000 approval created.0 refl reviews1

created_distinct : distinct (λ s. s.id) created.0.sub_projects ≡ true
unfolding distinct create_sub_project get_main_project find? all
created_distinct = refl

review_sub_project_budget_example :
    (m : MainProject) × (get_main_project 5 created.0 ≡ some m)
    × (leb_ℤ (allocated m.id approved.0.sub_projects) m.total_budget ≡ true)
unfolding review_sub_project get_sub_project find? create_sub_project get_main_project
    new_sub_project validate_over_budget ◌+ℤ◌ sum_approved_budget sum_by phases_fit all
    created_phases phases_from distinct any
review_sub_project_budget_example =
    review_sub_project_budget env boss 1000 approval created.0 created_distinct refl refl reviews1

abbrev completed_phase : ℕ → Phase
completed_phase n = record {
  id = 20 + n;
  sub_project_id = 1000;
  phase_no = n;
  code = codes "p";
  name = codes "phase";
  status = PhaseStatus.completed;
  enter_at = some 1;
  finish_at = some 2;
  procurement_type = none;
  created_at = 1;
  updated_at = 2;
}

abbrev finished_db : Db
finished_db = record approved.0 {
  phases =
      completed_phase 1
      ∷ completed_phase 2
      ∷ completed_phase 3
      ∷ completed_phase 4
      ∷ completed_phase 5
      ∷ completed_phase 6
      ∷ [];
}

abbrev closed : Db × SubProject
closed = value approved (close_sub_project env manager 1000 finished_db)

closes1 : close_sub_project env manager 1000 finished_db ≡ ok closed
unfolding close_sub_project get_sub_project find? review_sub_project create_sub_project
    get_main_project new_sub_project validate_over_budget ◌+ℤ◌ sum_approved_budget sum_by phases_fit
    all created_phases phases_from distinct any put phase_count count incomplete_count
closes1 = refl

here : get_sub_project 1000 finished_db ≡ some approved.1
unfolding get_sub_project find? review_sub_project create_sub_project get_main_project
    new_sub_project validate_over_budget ◌+ℤ◌ sum_approved_budget sum_by phases_fit all
    created_phases phases_from distinct any put
here = refl

proposed : get_sub_project 1000 created.0 ≡ some created.1
unfolding get_sub_project find? create_sub_project get_main_project new_sub_project
proposed = refl

close_sub_project_demands_example :
    (phase_count 1000 finished_db ≡ 6)
    × (all (λ p. not (p.sub_project_id == 1000) || is_completed p.status) finished_db.phases ≡ true)
    × (closed.1 ≡ record approved.1 {
      status = SubProjectStatus.closed;
      actual_end_date = some 7;
      closed_at = some 100;
      updated_at = 100;
    })
    × (get_sub_project 1000 closed.0 ≡ some closed.1)
    × (closed.0.phases ≡ finished_db.phases)
unfolding review_sub_project get_sub_project find? create_sub_project get_main_project
    new_sub_project validate_over_budget ◌+ℤ◌ sum_approved_budget sum_by phases_fit all
    created_phases phases_from distinct any
close_sub_project_demands_example =
    close_sub_project_demands env manager 1000 approved.1 finished_db here refl closes1

abbrev request : SubProjectHandoverRequest
request = record { to_user_id = 6; reason = codes "leave" }

abbrev handed : Db × SubProject
handed = value approved (handover_sub_project env boss 1000 request none approved.0)

hands : handover_sub_project env boss 1000 request none approved.0 ≡ ok handed
unfolding handover_sub_project get_sub_project find? review_sub_project create_sub_project
    get_main_project new_sub_project validate_over_budget ◌+ℤ◌ sum_approved_budget sum_by phases_fit
    all created_phases phases_from distinct any put get_user
hands = refl

stands : get_sub_project 1000 approved.0 ≡ some approved.1
unfolding get_sub_project find? review_sub_project create_sub_project get_main_project
    new_sub_project validate_over_budget ◌+ℤ◌ sum_approved_budget sum_by phases_fit all
    created_phases phases_from distinct any put
stands = refl

rows_unique : member_rows_unique approved.0.members ≡ true
unfolding member_rows_unique review_sub_project get_sub_project find? create_sub_project
    get_main_project new_sub_project validate_over_budget ◌+ℤ◌ sum_approved_budget sum_by phases_fit
    all created_phases phases_from distinct any
rows_unique = refl

leads_first : all (leads_alone 1000 1) approved.0.members ≡ true
unfolding all review_sub_project get_sub_project find? create_sub_project get_main_project
    new_sub_project validate_over_budget ◌+ℤ◌ sum_approved_budget sum_by phases_fit created_phases
    phases_from distinct any new_member
leads_first = refl

handover_sub_project_leads_example :
    (get_sub_project 1000 handed.0 ≡ some handed.1)
    × (handed.1.manager_id ≡ 6)
    × (all (leads_alone 1000 6) handed.0.members ≡ true)
    × ((m : SubProjectMember) × (get_member 1000 6 handed.0 ≡ some m)
        × (is_leader_role m.role_in_project ≡ true))
    × ((h : SubProjectHandover) × (h.from_user_id ≡ 1)
        × (h.to_user_id ≡ 6)
        × (handed.0.sub_project_handovers ≡ approved.0.sub_project_handovers ++ h ∷ []))
unfolding review_sub_project get_sub_project find? create_sub_project get_main_project
    new_sub_project validate_over_budget ◌+ℤ◌ sum_approved_budget sum_by phases_fit all
    created_phases phases_from distinct any
handover_sub_project_leads_example =
    handover_sub_project_leads env boss 1000 request none approved.1 approved.0 stands rows_unique
      leads_first hands

abbrev item_for : ℕ → Env × SubProjectBatchHandoverItem
item_for i = (env, record { sub_project_id = i; request = request })

abbrev batched : Db
batched = (batch_handovers boss 1 (item_for 1000 ∷ []) approved.0).0

batches : batch_handovers boss 1 (item_for 1000 ∷ []) approved.0 ≡ (batched, ok (handed.1 ∷ []))
unfolding batch_handovers handover_sub_project get_sub_project find? review_sub_project
    create_sub_project get_main_project new_sub_project validate_over_budget ◌+ℤ◌
    sum_approved_budget sum_by phases_fit all created_phases phases_from distinct any put get_user
batches = refl

fails : handover_sub_project env boss 7 request (some 1) batched ≡ err (not_found no_sub_project)
unfolding handover_sub_project get_sub_project find? batch_handovers review_sub_project
    create_sub_project get_main_project new_sub_project validate_over_budget ◌+ℤ◌
    sum_approved_budget sum_by phases_fit all created_phases phases_from distinct any put get_user
    hand_over
fails = refl

batch_handovers_fails_example :
    batch_handovers boss 1 (item_for 1000 ∷ item_for 7 ∷ item_for 1000 ∷ []) approved.0
    ≡ (batched, err (not_found no_sub_project))
batch_handovers_fails_example =
    batch_handovers_fails boss 1 (item_for 1000 ∷ []) (item_for 1000 ∷ []) env
      (record { sub_project_id = 7; request = request }) approved.0 batched (handed.1 ∷ [])
      (not_found no_sub_project) batches fails

abbrev ended_early : Db × SubProject
ended_early = value handed (terminate_sub_project env manager 1000 handed.0)

terminates1 : terminate_sub_project env manager 1000 handed.0 ≡ ok ended_early
unfolding terminate_sub_project get_sub_project find? handover_sub_project review_sub_project
    create_sub_project get_main_project new_sub_project validate_over_budget ◌+ℤ◌
    sum_approved_budget sum_by phases_fit all created_phases phases_from distinct any put get_user
    hand_over
terminates1 = refl

abbrev concluded : Db × MainProject
concluded = value (ended_early.0, main) (close_project env manager 5 ended_early.0)

concludes1 : close_project env manager 5 ended_early.0 ≡ ok concluded
unfolding close_project get_main_project find? terminate_sub_project get_sub_project
    handover_sub_project review_sub_project create_sub_project new_sub_project validate_over_budget
    ◌+ℤ◌ sum_approved_budget sum_by phases_fit all created_phases phases_from distinct any put
    get_user hand_over count_open_sub_projects count
concludes1 = refl

first_steps : created.0 ⇒* handed.0
first_steps =
    and_then (and_then stay (reviews env boss 1000 approval reviews1))
      (hands_over env boss 1000 request none hands)

whole_life : start ⇒* concluded.0
whole_life =
    and_then
      (and_then
        (and_then
          (and_then (and_then stay (creates env leader proposal creates1))
            (reviews env boss 1000 approval reviews1))
          (hands_over env boss 1000 request none hands))
        (terminates env manager 1000 terminates1))
      (concludes env manager 5 concludes1)

reachable_lifecycle_example :
    (s' : SubProject) × (get_sub_project 1000 handed.0 ≡ some s')
    × (created.1.status ↝* s'.status)
    × (is_ended_project created.1.status ≡ true → s'.status ≡ created.1.status)
reachable_lifecycle_example = reachable_lifecycle 1000 created.1 first_steps proposed

start_settled : IsClosedSettled start
unfolding get_main_project all
start_settled i m found shut = absurd (
    ground (
      arith,
      shut,
      find?-all (λ r. r.id == i) (λ r. not (is_closed_main r.status)) start.main_projects found
          refl,
    ))

reachable-IsClosedSettled_example : IsClosedSettled concluded.0
reachable-IsClosedSettled_example = reachable-IsClosedSettled whole_life start_settled

create_sub_project_number_example :
    (sequence_of sub_separator created.1.project_no ≡ some (pos 1))
    × (next_sub_project_sequence 5 created.0 ≡ 2)
    × (counters_positive created.0 ≡ true)
unfolding all next_sub_project_sequence find?
create_sub_project_number_example =
    create_sub_project_number env leader proposal start refl creates1
