-- ===== src/Tests/Data.antt =====
-- A sub project with its five phases, the leader, a finance manager and an administrator.
use project_lifecycle_manage.Base.{ℕ, ◌+◌, true, Option, none, some, [], ◌∷◌, codes, pos}
use project_lifecycle_manage.Model.{
  Db, Env, User, UserRole, active, admin, finance_manager, proj_leader, MainProject,
  MainProjectStatus, SubProject, SubProjectStatus, Phase, PhaseStatus, Payment, normal,
  RevokeRequest, pending,
}
use project_lifecycle_manage.Errors.{Result, ok, err}

-- The value of a call that returns.
abbrev pub value {ℓ} : {A : Type ℓ} → A → Result A → A
value d (ok a) = a
value d (err e) = d

abbrev pub env : Env
env = record { now = 100; today = 7; this_year = 2026; uuid = λ n. 1000 + n }

abbrev pub user_of : ℕ → UserRole → User
user_of i role = record {
  id = i;
  username = codes "u";
  role = role;
  dept_id = some 1;
  status = active;
}

abbrev pub leader : User
leader = user_of 1 proj_leader

abbrev pub accountant : User
accountant = user_of 2 finance_manager

abbrev pub boss : User
boss = user_of 3 admin

abbrev pub main : MainProject
main = record {
  id = 5;
  project_no = codes "M-1";
  name = codes "main";
  dept_id = 1;
  status = MainProjectStatus.in_progress;
  total_budget = pos 100000;
  expected_finish_date = 50;
  spent_amount = pos 0;
  remark = none;
  closed_at = none;
  creator_id = none;
  project_type_id = none;
  created_at = 1;
  updated_at = 1;
}

abbrev pub sub : SubProject
sub = record {
  id = 9;
  project_no = codes "S-1";
  name = codes "sub";
  main_project_id = 5;
  dept_id = 1;
  budget = pos 50000;
  manager_id = 1;
  creator_id = none;
  status = SubProjectStatus.in_progress;
  plan_end_date = none;
  actual_end_date = none;
  spent_amount = pos 0;
  remark = none;
  closed_at = none;
  workflow_template_version_id = none;
  created_at = 1;
  updated_at = 1;
}

abbrev phase_of : ℕ → PhaseStatus → Option ℕ → Option ℕ → Phase
phase_of n status enter finish = record {
  id = 10 + n;
  sub_project_id = 9;
  phase_no = n;
  code = codes "p";
  name = codes "phase";
  status = status;
  enter_at = enter;
  finish_at = finish;
  procurement_type = none;
  created_at = 1;
  updated_at = 1;
}

abbrev pub first_phase : Phase
first_phase = phase_of 1 PhaseStatus.in_progress (some 2) none

abbrev pub waiting_phase : ℕ → Phase
waiting_phase n = phase_of n PhaseStatus.waiting none none

abbrev pub db : Db
db = record {
  users = leader ∷ accountant ∷ boss ∷ [];
  main_projects = main ∷ [];
  sub_projects = sub ∷ [];
  members = [];
  phases = first_phase ∷ waiting_phase 2 ∷ waiting_phase 3 ∷ waiting_phase 4 ∷ waiting_phase 5 ∷ [];
  phase_histories = [];
  phase_doc_templates = [];
  workflow_versions = [];
  documents = [];
  acceptance_steps = [];
  revoke_requests = [];
  payments = [];
  payment_vouchers = [];
  tasks = [];
  notices = [];
  audits = [];
  audit_entries = [];
  project_reviews = [];
  sub_project_handovers = [];
  sub_project_no_counters = [];
  main_project_no_seq = 1;
  workflow_templates = [];
  handover_requests = [];
  handover_request_projects = [];
  project_types = [];
}

abbrev pub no_payment_yet : Payment
no_payment_yet = record {
  id = 0;
  payment_no = [];
  sub_project_id = 0;
  amount = pos 0;
  payment_date = 0;
  remark = none;
  payment_type = normal;
  reverses_payment_id = none;
  operator_id = none;
  created_at = 0;
  updated_at = 0;
}

abbrev pub no_request_yet : RevokeRequest
no_request_yet = record {
  id = 0;
  phase_id = 0;
  sub_project_id = 0;
  requester_id = 0;
  reason = [];
  keep_documents = true;
  status = pending;
  reviewer_id = none;
  review_comment = none;
  reviewed_at = none;
  created_at = 0;
  updated_at = 0;
}
