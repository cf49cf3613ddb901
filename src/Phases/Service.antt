-- ===== src/Phases/Service.antt =====
-- `PhaseService` of backend/app/services/phases.py: its queries, the choice of a procurement type,
-- and the promotion of a phase.
use project_lifecycle_manage.Base.{
  ℕ, ◌+◌, ◌==◌, Bool, true, false, not, ◌||◌, Option, none, some, List, [], ◌∷◌, ◌++◌, codes, Text,
  text_eq, if◌then◌else◌, find?, filter, all, map, length, sort_by, leb_ℤ,
}
use project_lifecycle_manage.Model.{
  Db, Env, User, SubProject, SubProjectStatus, Phase, PhaseStatus, PhaseHistory, PhaseDocTemplate,
  ProcurementType, PaymentVoucherCoverage, Document, AcceptanceStep, Notice, is_in_progress,
  is_completed, is_waiting,
}
use project_lifecycle_manage.Errors.{
  Result, ok, business, not_procurement_phase, procurement_phase_completed, not_in_progress, guard,
  ◌>>=◌, ◌>>◌,
}
use project_lifecycle_manage.Queries.{
  existing_phase, existing_sub_project, list_phases, list_latest_documents, save_phase,
  save_sub_project, unique_receivers, send,
}
use project_lifecycle_manage.Phases.Rules.{
  required_documents_for_phase, payment_voucher_coverage_for_phase, required_document_is_satisfied,
}
use project_lifecycle_manage.Phases.Guards.{
  ensure_can_operate_phase, ensure_procurement_type_selected, ensure_phase_dependencies_completed,
  ensure_acceptance_steps_completed, ensure_required_documents_uploaded, uploaded_count,
}

pub record PhaseDetail : Type 0 where
  pub phase : Phase
  pub required_documents : List PhaseDocTemplate
  pub uploaded_documents : List Document
  pub required_total : ℕ
  pub uploaded_total : ℕ
  pub missing_doc_types : List Text

missing_types :
    List PhaseDocTemplate → List Document → Option PaymentVoucherCoverage → Result (List Text)
missing_types [] uploaded coverage = ok []
missing_types (t ∷ ts) uploaded coverage = do
  satisfied ← required_document_is_satisfied t (uploaded_count uploaded t) coverage
  rest ← missing_types ts uploaded coverage
  if satisfied then ok rest else ok (t.doc_type ∷ rest)

-- `PhaseDetail.from_documents`
unfoldable pub from_documents :
    Phase
    → List PhaseDocTemplate
    → List Document
    → Option PaymentVoucherCoverage
    → Result PhaseDetail
unfolding missing_types
from_documents phase required uploaded coverage = do
  missing ← missing_types required uploaded coverage
  ok (record {
    phase = phase;
    required_documents = required;
    uploaded_documents = uploaded;
    required_total = length required;
    uploaded_total = length uploaded;
    missing_doc_types = missing;
  })

-- Every role passes `_ensure_visible`, since VIEW_ALL_PHASE_ROLES names all five.
unfoldable pub get_phase_detail : Env → ℕ → Db → Result PhaseDetail
get_phase_detail env phase_id db = do
  phase ← existing_phase phase_id db
  _ ← existing_sub_project phase.sub_project_id db
  required ← required_documents_for_phase env phase db
  from_documents phase required (list_latest_documents phase.id db)
      (payment_voucher_coverage_for_phase phase db)

unfoldable pub update_procurement_type : Env → User → ℕ → ProcurementType → Db → Result (Db × Phase)
update_procurement_type env actor phase_id procurement db = do
  phase ← existing_phase phase_id db
  sub_project ← existing_sub_project phase.sub_project_id db
  ensure_can_operate_phase actor sub_project db
  guard (phase.phase_no == 2) (business (not_procurement_phase phase.phase_no))
  guard (not (is_completed phase.status)) (business (procurement_phase_completed phase.status))
  let phase' = record phase { procurement_type = some procurement; updated_at = env.now }
  ok (record db { phases = save_phase phase' db.phases }, phase')

pub record PhasePromotionResult : Type 0 where
  pub db : Db
  pub phase : Phase
  pub activated_phase : Option Phase

-- `_activate_next_phase`: the phase that it changes, as changed.
unfoldable pub activate_next_phase : Phase → List Phase → ℕ → Option Phase
activate_next_phase phase phases now =
    if phase.phase_no == 1 || (phase.phase_no == 2 || phase.phase_no == 3)
    then elim (find? (λ p. p.phase_no == phase.phase_no + 1) phases) [
      | none ↦ none
      | some next ↦
          if is_waiting next.status
          then some (record next {
            status = PhaseStatus.in_progress;
            enter_at = some now;
            updated_at = now;
          })
          else none
    ]
    else none

abbrev pub save_optional : Option Phase → List Phase → List Phase
save_optional none ps = ps
save_optional (some p) ps = save_phase p ps

unfoldable pub list_acceptance_steps : ℕ → Db → List AcceptanceStep
list_acceptance_steps phase_id db =
    sort_by (λ a b. leb_ℤ a.step_no b.step_no)
      (filter (λ s. s.phase_id == phase_id) db.acceptance_steps)

abbrev pub promoted : Env → Phase → Phase
promoted env phase = record phase {
  status = PhaseStatus.completed;
  finish_at = some env.now;
  updated_at = env.now;
}

abbrev pub finished : Env → SubProject → SubProject
finished env sub_project = record sub_project {
  status = SubProjectStatus.completed;
  actual_end_date = some env.today;
  updated_at = env.now;
}

unfoldable pub promotion_history : Env → User → Phase → PhaseHistory
promotion_history env actor phase = record {
  id = env.uuid 0;
  phase_id = phase.id;
  from_status = some phase.status;
  to_status = PhaseStatus.completed;
  changed_by_id = some actor.id;
  changed_at = env.now;
  note = some (codes "promoted");
}

-- The assignments between the checks and the commit: the phase, its history, the next phase and,
-- where all phases are completed, the sub project.
unfoldable pub complete_phase : Env → User → Phase → SubProject → Db → PhasePromotionResult
complete_phase env actor phase sub_project db =
    let phase' = promoted env phase in
    let db1 = record db {
      phases = save_phase phase' db.phases;
      phase_histories = db.phase_histories ++ promotion_history env actor phase ∷ [];
    } in
    let activated = activate_next_phase phase' (list_phases sub_project.id db1) env.now in
    let db2 = record db1 { phases = save_optional activated db1.phases } in
    let db3 = record db2 {
      sub_projects = save_sub_project (finished env sub_project) db2.sub_projects;
    } in
    let all_done = all (λ p. is_completed p.status) (list_phases sub_project.id db2) in
    record { db = if all_done then db3 else db2; phase = phase'; activated_phase = activated }

abbrev activated_id : Option Phase → Phase → ℕ
activated_id none phase = phase.id
activated_id (some next) phase = next.id

-- `_send_phase_promoted_notification`
unfoldable pub notify_promoted : SubProject → PhasePromotionResult → PhasePromotionResult
notify_promoted sub_project r =
    let members = filter (λ m. m.sub_project_id == sub_project.id) r.db.members in
    let notice : Notice = record {
      scenario = codes "phase_promoted";
      receivers = unique_receivers (map (λ m. m.user_id) members ++ sub_project.manager_id ∷ []);
      source_id = activated_id r.activated_phase r.phase;
    } in
    record r { db = send notice r.db }

-- Reports of completed acceptance steps need not be uploaded for the phase again.
unfoldable pub documents_to_check : Bool → List PhaseDocTemplate → List PhaseDocTemplate
documents_to_check true required =
    filter (λ t. not (text_eq t.doc_type (codes "acceptance_report"))) required
documents_to_check false required = required

unfoldable pub promote_phase : Env → User → ℕ → Db → Result PhasePromotionResult
promote_phase env actor phase_id db = do
  phase ← existing_phase phase_id db
  sub_project ← existing_sub_project phase.sub_project_id db
  ensure_can_operate_phase actor sub_project db
  guard (is_in_progress phase.status) (business (not_in_progress phase.status))
  ensure_procurement_type_selected phase
  required ← required_documents_for_phase env phase db
  ensure_phase_dependencies_completed phase (list_phases sub_project.id db)
  covered ← ensure_acceptance_steps_completed phase (list_acceptance_steps phase.id db)
  ensure_required_documents_uploaded (documents_to_check covered required)
      (list_latest_documents phase.id db) (payment_voucher_coverage_for_phase phase db)
  ok (notify_promoted sub_project (complete_phase env actor phase sub_project db))
