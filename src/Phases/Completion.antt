-- ===== src/Phases/Completion.antt =====
-- The writes of backend/app/services/phases.py keep the invariant, and complete the sub project
-- with its last phase.
use project_lifecycle_manage.Base.{
  ℕ, ◌+◌, ◌==◌, true, false, not, ◌||◌, ◌≡◌, refl, subst, sym, some, arith, all, distinct,
  distinct-put, all-put, all_mono, find?, find?-put, find?-all, find?-sound, Bool-cases,
  Option-cases, inl, inr, ==_iff, ==_refl,
}
use project_lifecycle_manage.Model.{
  Db, Env, User, SubProject, SubProjectStatus, Phase, ProcurementType, RevokeRequest,
  is_in_progress, is_completed,
}
use project_lifecycle_manage.Errors.{
  ok, permission_denied, business, not_procurement_phase, procurement_phase_completed, ok-injective,
  from_option->>=-eq-ok, guard->>-eq-ok,
}
use project_lifecycle_manage.Queries.{
  get_phase, get_sub_project, phases_in, save_phase, save_sub_project, send,
}
use project_lifecycle_manage.Phases.Guards.{can_operate_phase}
use project_lifecycle_manage.Phases.Service.{
  PhasePromotionResult, promoted, finished, complete_phase, notify_promoted, promote_phase,
  update_procurement_type,
}
use project_lifecycle_manage.Phases.Promotion.{promote_phase-IsGranted}
use project_lifecycle_manage.Phases.Tables.{
  phases_done, phases_in-all, activate_next_phase-eq-some, activated-all,
}
use project_lifecycle_manage.Phases.Effects.{
  promoted_rows, next_phase, new_rows, complete_phase_phases, complete_phase_projects,
  complete_phase_phase, complete_phase_requests, next-sub_project,
}
use project_lifecycle_manage.Phases.Invariant.{
  has_times, is_settled, is_linked, linked-save, IsSound, same_sub, has_times-found, open_phase,
  settled-save, IsSound-tables, rewritten-IsSound,
}

module _ (env : Env) (actor : User) (phase : Phase) (sub : SubProject) (db : Db)
    (sound : IsSound db) (found : get_phase phase.id db ≡ some phase)
    (scope : get_sub_project phase.sub_project_id db ≡ some sub)
    (running : is_in_progress phase.status ≡ true) where
  promoted-has_times : has_times (promoted env phase) ≡ true
  promoted-has_times = ground (arith, has_times-found db sound found scope)

  promoted_rows-times : all has_times (promoted_rows env actor phase sub db) ≡ true
  promoted_rows-times =
      all-put has_times (λ r. r.id == phase.id) (promoted env phase) db.phases sound.times
        promoted-has_times

  next-has_times :
      {next : Phase} → next_phase env actor phase sub db ≡ some next → has_times next ≡ true
  next-has_times h =
      let rows = promoted_rows env actor phase sub db in
      let (old, was, waits, e, low) =
        activate_next_phase-eq-some (promoted env phase) (phases_in sub.id rows) env.now h in
      let times =
        find?-all (λ p. p.phase_no == phase.phase_no + 1) has_times (phases_in sub.id rows) was
          (phases_in-all has_times sub.id rows promoted_rows-times) in
      ground (arith, e, waits, times)

  new_rows-times : all has_times (new_rows env actor phase sub db) ≡ true
  new_rows-times = elim (Option-cases (next_phase env actor phase sub db)) [
    | inl e ↦ rw e promoted_rows-times
    | inr (next, e) ↦ rw e (
        all-put has_times (λ r. r.id == next.id) next (promoted_rows env actor phase sub db)
          promoted_rows-times (next-has_times e))
  ]

  -- A sub project other than the phase's has its phases untouched.
  new_rows-done :
      (s : SubProject)
      → (s.id == phase.sub_project_id) ≡ false
      → phases_done s.id db.phases ≡ true
      → phases_done s.id (new_rows env actor phase sub db) ≡ true
  new_rows-done s apart h =
      let one = settled-save (promoted env phase) s apart db.phases h in
      elim (Option-cases (next_phase env actor phase sub db)) [
        | inl e ↦ rw e one
        | inr (next, e) ↦ rw e (
            settled-save next s
              (ground
                (arith, next-sub_project env actor phase sub db e, same_sub db sound found scope))
              (promoted_rows env actor phase sub db) one)
      ]

  still_settled :
      (s : SubProject)
      → is_settled db.phases s ≡ true
      → is_settled (new_rows env actor phase sub db) s ≡ true
  still_settled s h = elim (Bool-cases (s.id == phase.sub_project_id)) [
    | inl same ↦ ground (arith, open_phase db sound found scope (ground arith) s h same)
    | inr apart ↦ ground (arith, new_rows-done s apart)
  ]

  old_projects-settled : all (is_settled (new_rows env actor phase sub db)) db.sub_projects ≡ true
  old_projects-settled =
      all_mono (is_settled db.phases) (is_settled (new_rows env actor phase sub db)) db.sub_projects
        still_settled sound.settled

  -- The activated phase keeps its id and its sub project, so the requests stay linked.
  next-linked :
      (r : RevokeRequest)
      → is_linked (promoted_rows env actor phase sub db) r ≡ true
      → {next : Phase} → next_phase env actor phase sub db ≡ some next
      → is_linked (save_phase next (promoted_rows env actor phase sub db)) r ≡ true
  next-linked r h {next} e =
      let rows = promoted_rows env actor phase sub db in
      all-put (λ x. not (x.id == r.phase_id) || x.sub_project_id == r.sub_project_id)
        (λ x. x.id == next.id) next rows h
        (activated-all (promoted env phase) (phases_in sub.id rows) env.now
          (λ x. not (x.id == r.phase_id) || x.sub_project_id == r.sub_project_id) (λ x. refl) e
          (phases_in-all (λ x. not (x.id == r.phase_id) || x.sub_project_id == r.sub_project_id)
            sub.id rows h))

  new_rows-linked : all (is_linked (new_rows env actor phase sub db)) db.revoke_requests ≡ true
  unfolding get_phase
  new_rows-linked =
      let one =
        linked-save (promoted env phase) db.phases db.revoke_requests found refl refl
          sound.linked in
      elim (Option-cases (next_phase env actor phase sub db)) [
        | inl e ↦ rw e one
        | inr (next, e) ↦ rw e (
            all_mono (is_linked (promoted_rows env actor phase sub db))
              (is_linked (save_phase next (promoted_rows env actor phase sub db)))
              db.revoke_requests (λ r h. next-linked r h e) one)
      ]

  new_rows_unique : distinct (λ p. p.id) (new_rows env actor phase sub db) ≡ true
  new_rows_unique =
      let one = distinct-put (λ p. p.id) (promoted env phase) db.phases sound.unique_phases in
      elim (Option-cases (next_phase env actor phase sub db)) [
        | inl e ↦ rw e one
        | inr (next, e) ↦
            rw e (distinct-put (λ p. p.id) next (promoted_rows env actor phase sub db) one)
      ]

  pub complete_phase-IsSound : IsSound (complete_phase env actor phase sub db).db
  complete_phase-IsSound = record {
    times = rw (complete_phase_phases env actor phase sub db) new_rows-times;
    settled =
        rw
          (
            complete_phase_phases env actor phase sub db,
            complete_phase_projects env actor phase sub db,
          )
          (elim (Bool-cases (phases_done sub.id (new_rows env actor phase sub db))) [
            | inr n ↦ rw n old_projects-settled
            | inl y ↦ rw y (
                all-put (is_settled (new_rows env actor phase sub db)) (λ r. r.id == sub.id)
                  (finished env sub) db.sub_projects old_projects-settled y)
          ]);
    unique =
        rw (complete_phase_projects env actor phase sub db)
          (elim (Bool-cases (phases_done sub.id (new_rows env actor phase sub db))) [
            | inr n ↦ rw n sound.unique
            | inl y ↦
                rw y (distinct-put (λ s. s.id) (finished env sub) db.sub_projects sound.unique)
          ]);
    unique_phases = rw (complete_phase_phases env actor phase sub db) new_rows_unique;
    linked =
        rw
          (
            complete_phase_phases env actor phase sub db,
            complete_phase_requests env actor phase sub db,
          )
          new_rows-linked;
  }

-- A promotion that returns keeps the invariant: the times of each phase agree with its status, and a
-- completed sub project has all its phases completed.
pub promote_phase-IsSound :
    (env : Env) (actor : User) (phase_id : ℕ) (db : Db) {r : PhasePromotionResult}
    → IsSound db
    → promote_phase env actor phase_id db ≡ ok r
    → IsSound r.db
unfolding get_phase
promote_phase-IsSound env actor phase_id db sound h =
    let (g, e) = promote_phase-IsGranted env actor phase_id db h in
    let same =
      (==_iff g.phase.id phase_id).0 (find?-sound (λ p. p.id == phase_id) db.phases g.found) in
    let found = subst (λ i. find? (λ p. p.id == i) db.phases ≡ some g.phase) (sym same) g.found in
    let kept =
      complete_phase-IsSound env actor g.phase g.sub_project db sound found g.scope g.running in
    rw e (
      unfold notify_promoted send in
      IsSound-tables (complete_phase env actor g.phase g.sub_project db).db _ refl refl refl kept)

-- A promotion that returns completes the sub project, with the date of today, if all phases of it
-- are completed then; otherwise it leaves every sub project as it was.
pub promote_phase_completes :
    (env : Env) (actor : User) (phase_id : ℕ) (db : Db) {r : PhasePromotionResult}
    → promote_phase env actor phase_id db ≡ ok r
    → (phases_done r.phase.sub_project_id r.db.phases ≡ true
        → (s : SubProject) × (get_sub_project r.phase.sub_project_id r.db ≡ some s)
          × (s.status ≡ SubProjectStatus.completed)
          × (s.actual_end_date ≡ some env.today))
      × (phases_done r.phase.sub_project_id r.db.phases ≡ false
          → r.db.sub_projects ≡ db.sub_projects)
unfolding notify_promoted send get_sub_project
promote_phase_completes env actor phase_id db h =
    let (g, e) = promote_phase-IsGranted env actor phase_id db h in
    let same =
      (==_iff _ _).0 (find?-sound (λ s. s.id == g.phase.sub_project_id) db.sub_projects g.scope) in
    let found =
      subst (λ i. find? (λ s. s.id == i) db.sub_projects ≡ some g.sub_project) (sym same) g.scope in
    let put =
      find?-put (λ s. s.id == g.sub_project.id) db.sub_projects (finished env g.sub_project) found
        (==_refl g.sub_project.id) in
    rw
      (
        e,
        complete_phase_phases env actor g.phase g.sub_project db,
        complete_phase_projects env actor g.phase g.sub_project db,
        complete_phase_phase env actor g.phase g.sub_project db,
      )
      (
        λ y.
            let done =
              subst (λ i. phases_done i (new_rows env actor g.phase g.sub_project db) ≡ true)
                (sym same) y in
            (
              finished env g.sub_project,
              rw done (
                  subst
                    (λ i.
                      find? (λ s. s.id == i)
                        (save_sub_project (finished env g.sub_project) db.sub_projects)
                      ≡ some (finished env g.sub_project))
                    same put),
              refl,
              refl,
            ),
        λ n.
            let open_still =
              subst (λ i. phases_done i (new_rows env actor g.phase g.sub_project db) ≡ false)
                (sym same) n in
            rw open_still refl,
      )

-- A choice of the procurement type that returns keeps the invariant of phases and sub projects.
pub update_procurement_type-IsSound :
    (env : Env) (actor : User) (phase_id : ℕ) (t : ProcurementType) (db : Db) {r : Db × Phase}
    → IsSound db
    → update_procurement_type env actor phase_id t db ≡ ok r
    → IsSound r.0
unfolding update_procurement_type get_phase
update_procurement_type-IsSound env actor phase_id t db sound h =
    let (phase, found, h1) = from_option->>=-eq-ok (get_phase phase_id db) _ _ h in
    let (sub, scope, h2) = from_option->>=-eq-ok (get_sub_project phase.sub_project_id db) _ _ h1 in
    let (operator, h3) = guard->>-eq-ok (can_operate_phase actor sub db) permission_denied _ h2 in
    let (second, h4) =
      guard->>-eq-ok (phase.phase_no == 2) (business (not_procurement_phase phase.phase_no)) _ h3 in
    let (unfinished, h5) =
      guard->>-eq-ok (not (is_completed phase.status))
        (business (procurement_phase_completed phase.status)) _ h4 in
    let same = (==_iff phase.id phase_id).0 (find?-sound (λ p. p.id == phase_id) db.phases found) in
    let here = subst (λ i. find? (λ p. p.id == i) db.phases ≡ some phase) (sym same) found in
    subst (λ x. IsSound x.0) (ok-injective h5)
      (rewritten-IsSound db sound here
        (record phase { procurement_type = some t; updated_at = env.now }) refl refl refl refl)
