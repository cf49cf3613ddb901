-- ===== src/Phases/Effects.antt =====
-- What a promotion (backend/app/services/phases.py) leaves in the database.
use project_lifecycle_manage.Base.{
  ◌++◌, ◌∷◌, [], ℕ, ◌+◌, ◌==◌, true, false, not, ◌||◌, ◌≡◌, ◌≢◌, refl, subst, ◌∙◌, sym, Option,
  some, List, arith, if◌then◌else◌, find?, all, find?-sound, all-put_self, find?-put, find?-put-any,
  Bool-cases, Option-cases, inl, inr, ==_iff, ==_refl,
}
use project_lifecycle_manage.Model.{Db, Env, User, SubProject, Phase, PhaseStatus, is_completed}
use project_lifecycle_manage.Errors.{ok}
use project_lifecycle_manage.Queries.{get_phase, phases_in, save_phase, save_sub_project, send}
use project_lifecycle_manage.Phases.Service.{
  PhasePromotionResult, promoted, finished, save_optional, activate_next_phase, complete_phase,
  promotion_history, notify_promoted, promote_phase,
}
use project_lifecycle_manage.Phases.Promotion.{promote_phase-IsGranted}
use project_lifecycle_manage.Phases.Tables.{
  phases_done, all-phases_in-phases_done, phases_in-sub_project, phases_in-all, find?-save_phase_ne,
  find?-phases_in-any, activate_next_phase-eq-some, activated-all,
}

module _ (env : Env) (actor : User) (phase : Phase) (sub : SubProject) (db : Db) where
  -- The phase table with the promoted phase, and the phase that is activated from it.
  abbrev pub promoted_rows : List Phase
  promoted_rows = save_phase (promoted env phase) db.phases

  abbrev pub next_phase : Option Phase
  next_phase = activate_next_phase (promoted env phase) (phases_in sub.id promoted_rows) env.now

  abbrev pub new_rows : List Phase
  new_rows = save_optional next_phase promoted_rows

  -- The tables of the result, and what it reports.
  pub complete_phase_phases : (complete_phase env actor phase sub db).db.phases ≡ new_rows
  unfolding complete_phase
  complete_phase_phases =
      elim (Bool-cases (all (λ p. is_completed p.status) (phases_in sub.id new_rows))) [
        | inl y ↦ rw y
        | inr n ↦ rw n
      ]

  pub complete_phase_projects : (complete_phase env actor phase sub db).db.sub_projects ≡ (
      if phases_done sub.id new_rows
      then save_sub_project (finished env sub) db.sub_projects
      else db.sub_projects)
  unfolding complete_phase
  complete_phase_projects =
      let e = all-phases_in-phases_done sub.id new_rows in
      elim (Bool-cases (phases_done sub.id new_rows)) [ inl y ↦ rw (e, y) | inr n ↦ rw (e, n) ]

  pub complete_phase_activated :
      (complete_phase env actor phase sub db).activated_phase ≡ next_phase
  unfolding complete_phase
  complete_phase_activated = refl

  pub complete_phase_phase : (complete_phase env actor phase sub db).phase ≡ promoted env phase
  unfolding complete_phase
  complete_phase_phase = refl

  pub complete_phase_requests :
      (complete_phase env actor phase sub db).db.revoke_requests ≡ db.revoke_requests
  unfolding complete_phase
  complete_phase_requests =
      elim (Bool-cases (all (λ p. is_completed p.status) (phases_in sub.id new_rows))) [
        | inl y ↦ rw y
        | inr n ↦ rw n
      ]

  pub complete_phase_accounts :
      ((complete_phase env actor phase sub db).db.payments ≡ db.payments)
      × ((complete_phase env actor phase sub db).db.main_projects ≡ db.main_projects)
  unfolding complete_phase
  complete_phase_accounts =
      elim (Bool-cases (all (λ p. is_completed p.status) (phases_in sub.id new_rows))) [
        | inl y ↦ rw y (refl, refl)
        | inr n ↦ rw n (refl, refl)
      ]

  pub complete_phase_histories :
      (complete_phase env actor phase sub db).db.phase_histories
      ≡ db.phase_histories ++ promotion_history env actor phase ∷ []
  unfolding complete_phase
  complete_phase_histories =
      elim (Bool-cases (all (λ p. is_completed p.status) (phases_in sub.id new_rows))) [
        | inl y ↦ rw y refl
        | inr n ↦ rw n refl
      ]

  -- Rows of another phase number keep apart from the promoted one.
  numbers : all (λ p. not (p.id == phase.id) || p.phase_no == phase.phase_no) promoted_rows ≡ true
  numbers =
      all-put_self (λ p. p.phase_no == phase.phase_no) (λ p. p.id == phase.id) (promoted env phase)
        db.phases (==_refl phase.phase_no)

  pub next-id : {next : Phase} → next_phase ≡ some next → (next.id == phase.id) ≡ false
  next-id {next} h =
      let (old, found, waits, e, low) =
        activate_next_phase-eq-some (promoted env phase) (phases_in sub.id promoted_rows) env.now
          h in
      let apart =
        activated-all (promoted env phase) (phases_in sub.id promoted_rows) env.now
          (λ p. not (p.id == phase.id) || p.phase_no == phase.phase_no) (λ p. refl) h
          (phases_in-all (λ p. not (p.id == phase.id) || p.phase_no == phase.phase_no) sub.id
            promoted_rows numbers) in
      let no =
        find?-sound (λ p. p.phase_no == phase.phase_no + 1) (phases_in sub.id promoted_rows)
          found in
      ground (arith, apart, no, e)

  pub next-sub_project :
      {next : Phase} → next_phase ≡ some next → (next.sub_project_id == sub.id) ≡ true
  next-sub_project h =
      activated-all (promoted env phase) (phases_in sub.id promoted_rows) env.now
        (λ p. p.sub_project_id == sub.id) (λ p. refl) h (phases_in-sub_project sub.id promoted_rows)

  -- What is looked up is the promoted phase.
  pub new_rows-promoted :
      find? (λ p. p.id == phase.id) db.phases ≡ some phase
      → find? (λ p. p.id == phase.id) new_rows ≡ some (promoted env phase)
  new_rows-promoted h =
      let self =
        find?-put (λ p. p.id == phase.id) db.phases (promoted env phase) h (==_refl phase.id) in
      elim (Option-cases next_phase) [
        | inl e ↦ rw e self
        | inr (next, e) ↦ rw e (find?-save_phase_ne phase.id next promoted_rows (next-id e) ∙ self)
      ]

  pub new_rows-next :
      {next : Phase} → next_phase ≡ some next → find? (λ p. p.id == next.id) new_rows ≡ some next
  new_rows-next {next} h =
      let (old, found, waits, e, low) =
        activate_next_phase-eq-some (promoted env phase) (phases_in sub.id promoted_rows) env.now
          h in
      let row =
        find?-phases_in-any (λ p. p.phase_no == phase.phase_no + 1) (λ p. p.id == next.id) sub.id
          promoted_rows found (ground (arith, e)) in
      rw h (find?-put-any (λ p. p.id == next.id) promoted_rows next row (==_refl next.id))

  pub new_rows-other :
      (j : ℕ)
      → (phase.id == j) ≡ false
      → ((next : Phase) → next_phase ≡ some next → next.id ≢ j)
      → find? (λ p. p.id == j) new_rows ≡ find? (λ p. p.id == j) db.phases
  new_rows-other j apart others =
      let one = find?-save_phase_ne j (promoted env phase) db.phases apart in
      elim (Option-cases next_phase) [
        | inl e ↦ rw e one
        | inr (next, e) ↦
            rw e (find?-save_phase_ne j next promoted_rows (ground (arith, others next e)) ∙ one)
      ]

-- A promotion that returns leaves the phase that was asked for completed, finished now, and reports
-- it so; every phase but this one and the one that it activates is found as before.
pub promote_phase_effect :
    (env : Env) (actor : User) (phase_id : ℕ) (db : Db) {r : PhasePromotionResult}
    → promote_phase env actor phase_id db ≡ ok r
    → (get_phase phase_id r.db ≡ some r.phase)
      × (r.phase.status ≡ PhaseStatus.completed)
      × (r.phase.finish_at ≡ some env.now)
      × ((j : ℕ)
          → j ≢ phase_id
          → ((next : Phase) → r.activated_phase ≡ some next → next.id ≢ j)
          → get_phase j r.db ≡ get_phase j db)
unfolding get_phase notify_promoted send
promote_phase_effect env actor phase_id db h =
    let (g, e) = promote_phase-IsGranted env actor phase_id db h in
    let same =
      (==_iff g.phase.id phase_id).0 (find?-sound (λ p. p.id == phase_id) db.phases g.found) in
    let found = subst (λ i. find? (λ p. p.id == i) db.phases ≡ some g.phase) (sym same) g.found in
    let self = new_rows-promoted env actor g.phase g.sub_project db found in
    rw
      (
        e,
        complete_phase_phases env actor g.phase g.sub_project db,
        complete_phase_phase env actor g.phase g.sub_project db,
        complete_phase_activated env actor g.phase g.sub_project db,
      )
      (
        subst
            (λ i.
              find? (λ p. p.id == i) (new_rows env actor g.phase g.sub_project db)
              ≡ some (promoted env g.phase))
            same self,
        refl,
        refl,
        λ j apart others.
            new_rows-other env actor g.phase g.sub_project db j (ground (arith, same)) others,
      )
