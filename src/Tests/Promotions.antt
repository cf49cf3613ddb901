-- ===== src/Tests/Promotions.antt =====
-- The leader promotes1 the first phase, and the second one then gets its procurement type.
use project_lifecycle_manage.Base.{
  ℕ, ◌≡◌, ◌≢◌, refl, none, some, true, false, find?, sort_by, filter, all, distinct,
}
use project_lifecycle_manage.Model.{Db, Phase, PhaseStatus, SubProject, SubProjectStatus}
use project_lifecycle_manage.Phases.Tables.{phases_done}
use project_lifecycle_manage.Errors.{ok}
use project_lifecycle_manage.Queries.{get_phase, get_sub_project}
use project_lifecycle_manage.Phases.Service.{
  PhasePromotionResult, promote_phase, documents_to_check,
}
use project_lifecycle_manage.Phases.Demands.{
  promote_phase_demands, promote_phase_returns, IsDemanded, promotion,
}
use project_lifecycle_manage.Phases.Effects.{promote_phase_effect}
use project_lifecycle_manage.Phases.Completion.{promote_phase-IsSound, promote_phase_completes}
use project_lifecycle_manage.Phases.Invariant.{IsSound}
use project_lifecycle_manage.Tests.Data.{value, env, leader, first_phase, db}
use project_lifecycle_manage.Phases.Guards.{
  can_operate_phase, procurement_selected, incomplete_phase_nos, ensure_acceptance_steps_completed,
  steps_apply, ensure_required_documents_uploaded, missing_from,
}
use project_lifecycle_manage.Phases.Rules.{
  required_documents_for_phase, list_required_doc_templates,
}

abbrev pub promotion1 : PhasePromotionResult
promotion1 =
    value (record { db = db; phase = first_phase; activated_phase = none })
      (promote_phase env leader 11 db)

pub promotes1 : promote_phase env leader 11 db ≡ ok promotion1
unfolding promote_phase get_phase find? get_sub_project can_operate_phase procurement_selected
    required_documents_for_phase incomplete_phase_nos ensure_acceptance_steps_completed steps_apply
    ensure_required_documents_uploaded missing_from documents_to_check list_required_doc_templates
    sort_by filter
promotes1 = refl

pub db-IsSound : IsSound db
unfolding all distinct
db-IsSound = record {
  times = refl;
  settled = refl;
  unique = refl;
  unique_phases = refl;
  linked = refl;
}

abbrev pub db1 : Db
db1 = promotion1.db

promote_phase_demands_example :
    (d : IsDemanded env leader 11 db) × (promotion1 ≡ promotion env leader 11 db d)
promote_phase_demands_example = promote_phase_demands env leader 11 db promotes1

promote_phase_returns_example :
    promote_phase env leader 11 db
    ≡ ok (promotion env leader 11 db (promote_phase_demands env leader 11 db promotes1).0)
promote_phase_returns_example =
    promote_phase_returns env leader 11 db (promote_phase_demands env leader 11 db promotes1).0

promote_phase_effect_example :
    (get_phase 11 db1 ≡ some promotion1.phase)
    × (promotion1.phase.status ≡ PhaseStatus.completed)
    × (promotion1.phase.finish_at ≡ some 100)
    × ((j : ℕ)
        → j ≢ 11
        → ((next : Phase) → promotion1.activated_phase ≡ some next → next.id ≢ j)
        → get_phase j db1 ≡ get_phase j db)
promote_phase_effect_example = promote_phase_effect env leader 11 db promotes1

promote_phase-IsSound_example : IsSound db1
promote_phase-IsSound_example = promote_phase-IsSound env leader 11 db db-IsSound promotes1

promote_phase_completes_example :
    (phases_done promotion1.phase.sub_project_id db1.phases ≡ true
      → (s : SubProject) × (get_sub_project promotion1.phase.sub_project_id db1 ≡ some s)
        × (s.status ≡ SubProjectStatus.completed)
        × (s.actual_end_date ≡ some 7))
    × (phases_done promotion1.phase.sub_project_id db1.phases ≡ false
        → db1.sub_projects ≡ db.sub_projects)
promote_phase_completes_example = promote_phase_completes env leader 11 db promotes1
