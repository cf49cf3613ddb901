-- ===== src/Phases/Invariant.antt =====
-- What holds of the phases and the sub projects between two calls of the services under
-- backend/app/services.
use project_lifecycle_manage.Base.{
  ℕ, ◌==◌, Bool, true, false, not, ◌&&◌, ◌||◌, ◌≡◌, ◌∙◌, Option, some, List, arith, all, is_some,
  distinct, distinct-put, distinct-all, find?, all-&&, all-put, all_mono, find?-all, find?-sound,
  Bool-cases, inl, inr,
}
use project_lifecycle_manage.Model.{
  Db, SubProject, Phase, RevokeRequest, PhaseStatus, is_completed_project, is_completed, waiting,
  in_progress, completed, revoked,
}
use project_lifecycle_manage.Queries.{get_phase, get_sub_project, save_phase}
use project_lifecycle_manage.Phases.Tables.{phases_done}

-- A waiting phase has no times, one in progress was entered, a completed one was finished too.
abbrev times_agree : PhaseStatus → Option ℕ → Option ℕ → Bool
times_agree waiting enter finish = not (is_some enter) && not (is_some finish)
times_agree in_progress enter finish = is_some enter && not (is_some finish)
times_agree completed enter finish = is_some enter && is_some finish
times_agree revoked enter finish = true

abbrev pub has_times : Phase → Bool
has_times p = times_agree p.status p.enter_at p.finish_at

-- A completed sub project has all its phases completed.
abbrev pub is_settled : List Phase → SubProject → Bool
is_settled ps s = not (is_completed_project s.status) || phases_done s.id ps

-- A revoke request names the sub project of its phase.
abbrev pub is_linked : List Phase → RevokeRequest → Bool
is_linked ps r = all (λ p. not (p.id == r.phase_id) || p.sub_project_id == r.sub_project_id) ps

pub record IsSound (db : Db) : Type 0 where
  pub times : all has_times db.phases ≡ true
  pub settled : all (is_settled db.phases) db.sub_projects ≡ true
  pub unique : distinct (λ s. s.id) db.sub_projects ≡ true
  pub unique_phases : distinct (λ p. p.id) db.phases ≡ true
  pub linked : all (is_linked db.phases) db.revoke_requests ≡ true

-- Writing rows of the sub project keeps the others settled.
pub settled-save :
    (p : Phase) (s : SubProject)
    → (s.id == p.sub_project_id) ≡ false
    → (ps : List Phase) → phases_done s.id ps ≡ true
    → phases_done s.id (save_phase p ps) ≡ true
unfolding phases_done
settled-save p s apart ps h =
    all-put (λ r. not (r.sub_project_id == s.id) || is_completed r.status) (λ r. r.id == p.id) p ps
      h (ground arith)

module _ (db : Db) (sound : IsSound db) {phase : Phase} {sub : SubProject}
    (found : get_phase phase.id db ≡ some phase)
    (scope : get_sub_project phase.sub_project_id db ≡ some sub) where
  pub same_sub : (sub.id == phase.sub_project_id) ≡ true
  unfolding get_sub_project
  same_sub = find?-sound (λ s. s.id == phase.sub_project_id) db.sub_projects scope

  pub has_times-found : has_times phase ≡ true
  unfolding get_phase
  has_times-found = find?-all (λ p. p.id == phase.id) has_times db.phases found sound.times

  -- A sub project with a phase that is not completed is not completed.
  pub open_phase :
      is_completed phase.status ≡ false
      → (s : SubProject) → is_settled db.phases s ≡ true
      → (s.id == phase.sub_project_id) ≡ true
      → is_completed_project s.status ≡ false
  unfolding get_phase phases_done
  open_phase h s keeps same = elim (Bool-cases (is_completed_project s.status)) [
    | inr n ↦ n
    | inl y ↦
        let done : phases_done s.id db.phases ≡ true = ground (arith, y, keeps) in
        let this =
          find?-all (λ p. p.id == phase.id)
            (λ p. not (p.sub_project_id == s.id) || is_completed p.status) db.phases found done in
        ground (arith, this, h, same)
  ]

-- The invariant looks at three tables alone.
pub IsSound-tables :
    (db db' : Db)
    → db'.phases ≡ db.phases
    → db'.sub_projects ≡ db.sub_projects
    → db'.revoke_requests ≡ db.revoke_requests
    → IsSound db
    → IsSound db'
IsSound-tables db db' same_phases same_projects same_requests sound = record {
  times = rw same_phases sound.times;
  settled = rw (same_phases, same_projects) sound.settled;
  unique = rw same_projects sound.unique;
  unique_phases = rw same_phases sound.unique_phases;
  linked = rw (same_phases, same_requests) sound.linked;
}

-- A write of a phase that keeps its id and its sub project keeps the requests linked.
pub linked-save :
    {phase : Phase} (p : Phase) (ps : List Phase) (rs : List RevokeRequest)
    → find? (λ r. r.id == phase.id) ps ≡ some phase
    → p.id ≡ phase.id
    → p.sub_project_id ≡ phase.sub_project_id
    → all (is_linked ps) rs ≡ true
    → all (is_linked (save_phase p ps)) rs ≡ true
linked-save {phase} p ps rs found same_id same_project =
    all_mono (is_linked ps) (is_linked (save_phase p ps)) rs λ r h.
      all-put (λ x. not (x.id == r.phase_id) || x.sub_project_id == r.sub_project_id)
        (λ x. x.id == p.id) p ps h
        (rw (same_id, same_project)
          (find?-all (λ x. x.id == phase.id)
            (λ x. not (x.id == r.phase_id) || x.sub_project_id == r.sub_project_id) ps found h))

-- A row may be written anew with the same sub project, status and times.
pub rewritten-IsSound :
    (db : Db)
    → IsSound db
    → {phase : Phase} → get_phase phase.id db ≡ some phase
    → (p : Phase) → p.id ≡ phase.id
    → p.sub_project_id ≡ phase.sub_project_id
    → is_completed p.status ≡ is_completed phase.status
    → has_times p ≡ has_times phase
    → IsSound (record db { phases = save_phase p db.phases })
unfolding get_phase phases_done
rewritten-IsSound db sound {phase} found p same_id same_project same_status same_times = record {
  times =
      all-put has_times (λ r. r.id == p.id) p db.phases sound.times
        (same_times ∙ find?-all (λ r. r.id == phase.id) has_times db.phases found sound.times);
  settled =
      all_mono (is_settled db.phases) (is_settled (save_phase p db.phases)) db.sub_projects
        (λ s h. elim (Bool-cases (is_completed_project s.status)) [
          | inr n ↦ ground (arith, n)
          | inl y ↦
              let done : phases_done s.id db.phases ≡ true = ground (arith, y, h) in
              let kept =
                all-put (λ r. not (r.sub_project_id == s.id) || is_completed r.status)
                  (λ r. r.id == p.id) p db.phases done
                  (rw (same_project, same_status)
                    (find?-all (λ r. r.id == phase.id)
                      (λ r. not (r.sub_project_id == s.id) || is_completed r.status) db.phases found
                      done)) in
              ground (arith, y, kept)
        ])
        sound.settled;
  unique = sound.unique;
  unique_phases = distinct-put (λ r. r.id) p db.phases sound.unique_phases;
  linked = linked-save p db.phases db.revoke_requests found same_id same_project sound.linked;
}

-- A phase may be opened again while its sub project is not completed.
pub reopened-IsSound :
    (db : Db)
    → IsSound db
    → {phase : Phase} {sub : SubProject} → get_phase phase.id db ≡ some phase
    → (p : Phase) → p.id ≡ phase.id
    → p.sub_project_id ≡ phase.sub_project_id
    → get_sub_project p.sub_project_id db ≡ some sub
    → has_times p ≡ true
    → is_completed_project sub.status ≡ false
    → IsSound (record db { phases = save_phase p db.phases })
unfolding get_sub_project get_phase
reopened-IsSound db sound {phase} {sub} found p same_id same_project scope times opened = record {
  times = all-put has_times (λ r. r.id == p.id) p db.phases sound.times times;
  settled =
      all_mono
        (λ s.
          is_settled db.phases s
          && (not (s.id == p.sub_project_id) || not (is_completed_project s.status)))
        (is_settled (save_phase p db.phases)) db.sub_projects
        (λ s h. elim (Bool-cases (s.id == p.sub_project_id)) [
          | inl y ↦ ground (arith, y, h)
          | inr n ↦ ground (arith, n, h, settled-save p s n db.phases)
        ])
        (all-&& (is_settled db.phases)
          (λ s. not (s.id == p.sub_project_id) || not (is_completed_project s.status))
          db.sub_projects sound.settled
          (distinct-all (λ s. s.id) (λ s. not (is_completed_project s.status)) p.sub_project_id
            db.sub_projects sound.unique scope (ground (arith, opened))));
  unique = sound.unique;
  unique_phases = distinct-put (λ r. r.id) p db.phases sound.unique_phases;
  linked = linked-save p db.phases db.revoke_requests found same_id same_project sound.linked;
}
