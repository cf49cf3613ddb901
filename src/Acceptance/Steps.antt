-- ===== src/Acceptance/Steps.antt =====
-- What holds of the acceptance steps (backend/app/services/acceptance_steps.py).
use project_lifecycle_manage.Base.{
  ℕ, ◌==◌, leb, Bool, true, false, not, ◌&&◌, ◌||◌, some, List, [], ◌∷◌, ◌++◌, ◌≡◌, ◌≢◌, none,
  find?-append_none, any-none, ==_refl, refl, sym, ap, subst, arith, strip, any, all, all-put,
  all-append_one, any-append, find?, find?-sound, find?-put, find?-none, is_some, put, ℤ, pos,
  negsuc, leb_ℤ, ==_iff, Bool-cases, inl, inr, ◌≤◌, if◌then◌else◌,
}
use project_lifecycle_manage.Model.{
  Db, Env, User, SubProject, Phase, AcceptanceStep, AcceptanceStepStatus, is_in_progress,
  is_completed_step,
}
use project_lifecycle_manage.Errors.{
  ok, guard->>-eq-ok, >>=-eq-ok, from_option->>=-eq-ok, ok-injective, permission_denied, conflict,
  business, responsible_not_member, validation_failed, step_number, step_name, not_found, no_step,
  step_report_missing,
}
use project_lifecycle_manage.Queries.{get_phase, get_sub_project, get_member}
use project_lifecycle_manage.Acceptance.Service.{
  get_step, get_step_by_no, eq_ℤ, has_number, count_step_reports, can_create, can_update,
  ensure_phase_accepts_steps, non_blank, AcceptanceStepCreate, is_free, new_step, add_step,
  create_step, restamped, update_step,
}

-- No two steps of a phase have the same number.
unfoldable pub numbered : List AcceptanceStep → Bool
numbered [] = true
numbered (s ∷ ss) = not (any (has_number s.phase_id s.step_no) ss) && numbered ss

-- A step has a completion time exactly when it is completed.
abbrev pub is_dated : AcceptanceStep → Bool
is_dated s =
    if is_completed_step s.status then is_some s.completed_at else not (is_some s.completed_at)

eq_ℤ_sym : (a b : ℤ) → eq_ℤ a b ≡ eq_ℤ b a
unfolding eq_ℤ
eq_ℤ_sym (pos a) (pos b) = ground arith
eq_ℤ_sym (pos a) (negsuc b) = refl
eq_ℤ_sym (negsuc a) (pos b) = refl
eq_ℤ_sym (negsuc a) (negsuc b) = ground arith

eq_ℤ_refl : (a : ℤ) → eq_ℤ a a ≡ true
unfolding eq_ℤ
eq_ℤ_refl (pos a) = ==_refl a
eq_ℤ_refl (negsuc a) = ==_refl a

numbered-append :
    (s : AcceptanceStep) (ss : List AcceptanceStep)
    → numbered ss ≡ true
    → any (has_number s.phase_id s.step_no) ss ≡ false
    → numbered (ss ++ s ∷ []) ≡ true
unfolding numbered any
numbered-append s [] h k = refl
numbered-append s (t ∷ ts) h k = ground (
  arith,
  any-append (has_number t.phase_id t.step_no) ts (s ∷ []),
  eq_ℤ_sym s.step_no t.step_no,
  numbered-append s ts,
)

accepting :
    (phase : Phase) (u : Unit {0})
    → ensure_phase_accepts_steps phase ≡ ok u
    → (phase.phase_no ≡ 4) × (is_in_progress phase.status ≡ true)
unfolding ensure_phase_accepts_steps
accepting phase u h = ground arith

free-none :
    (phase_id : ℕ) (step_no : ℤ) (db : Db)
    → is_free (get_step_by_no phase_id step_no db) ≡ true
    → any (has_number phase_id step_no) db.acceptance_steps ≡ false
unfolding get_step_by_no
free-none phase_id step_no db h =
    find?-none (has_number phase_id step_no) db.acceptance_steps (ground arith)

-- What the checks of `create_step` have established.
pub record IsCreated (env : Env) (actor : User) (phase_id : ℕ) (payload : AcceptanceStepCreate)
    (db : Db) : Type 0 where
  pub phase : Phase
  pub sub_project : SubProject
  pub found : get_phase phase_id db ≡ some phase
  pub scope : get_sub_project phase.sub_project_id db ≡ some sub_project
  pub allowed : can_create actor sub_project ≡ true
  pub acceptance : phase.phase_no ≡ 4
  pub running : is_in_progress phase.status ≡ true
  pub member : is_some (get_member sub_project.id payload.responsible_id db) ≡ true
  pub positive : leb_ℤ (pos 1) payload.step_no ≡ true
  pub named : non_blank (strip payload.step_name) ≡ true
  pub free : any (has_number phase.id payload.step_no) db.acceptance_steps ≡ false

-- The checks of a creation that returns, and its write.
pub create_step-eq-ok :
    (env : Env) (actor : User) (phase_id : ℕ) (payload : AcceptanceStepCreate) (db : Db)
    {r : Db × AcceptanceStep}
    → create_step env actor phase_id payload db ≡ ok r
    → (c : IsCreated env actor phase_id payload db) × (r.1 ≡ new_step env c.phase payload)
      × (r.0 ≡ add_step r.1 db)
unfolding create_step
create_step-eq-ok env actor phase_id payload db h =
    let (phase, found, h1) = from_option->>=-eq-ok (get_phase phase_id db) _ _ h in
    let (sub, scope, h2) = from_option->>=-eq-ok (get_sub_project phase.sub_project_id db) _ _ h1 in
    let (allowed, h3) = guard->>-eq-ok (can_create actor sub) permission_denied _ h2 in
    let (u, accepts, h4) = >>=-eq-ok (ensure_phase_accepts_steps phase) _ h3 in
    let (fourth, running) = accepting phase u accepts in
    let (member, h5) =
      guard->>-eq-ok (is_some (get_member sub.id payload.responsible_id db))
        (business (responsible_not_member payload.responsible_id)) _ h4 in
    let (positive, h6) =
      guard->>-eq-ok (leb_ℤ (pos 1) payload.step_no) (validation_failed step_number) _ h5 in
    let (named, h7) =
      guard->>-eq-ok (non_blank (strip payload.step_name)) (validation_failed step_name) _ h6 in
    let (free, h8) =
      guard->>-eq-ok (is_free (get_step_by_no phase.id payload.step_no db)) conflict _ h7 in
    (
      record {
        phase = phase;
        sub_project = sub;
        found = found;
        scope = scope;
        allowed = allowed;
        acceptance = fourth;
        running = running;
        member = member;
        positive = positive;
        named = named;
        free = free-none phase.id payload.step_no db free;
      },
      sym (ap (λ x. x.1) (ok-injective h8)),
      rw (sym (ok-injective h8)) refl,
    )

-- A creation that returns came from the administrator or the leader, for an acceptance phase in
-- progress, with a member as responsible, a positive number that the phase has not used, and a name.
-- It added one row to the table: a step of that phase with that number, the stripped name, that member
-- and the planned date, not started and without a completion time. It is the step that is then found
-- under its number.
pub create_step-IsCreated :
    (env : Env) (actor : User) (phase_id : ℕ) (payload : AcceptanceStepCreate) (db : Db)
    {r : Db × AcceptanceStep}
    → create_step env actor phase_id payload db ≡ ok r
    → IsCreated env actor phase_id payload db
      × (r.1.phase_id ≡ phase_id)
      × (r.1.step_no ≡ payload.step_no)
      × (r.1.step_name ≡ strip payload.step_name)
      × (r.1.responsible_id ≡ payload.responsible_id)
      × (r.1.plan_date ≡ payload.plan_date)
      × (r.1.status ≡ AcceptanceStepStatus.not_started)
      × (r.1.completed_at ≡ none)
      × (r.1.created_at ≡ env.now)
      × (r.0.acceptance_steps ≡ db.acceptance_steps ++ r.1 ∷ [])
      × (get_step_by_no phase_id payload.step_no r.0 ≡ some r.1)
unfolding new_step get_phase get_step_by_no
create_step-IsCreated env actor phase_id payload db h =
    let (c, e, e') = create_step-eq-ok env actor phase_id payload db h in
    let same = (==_iff _ _).0 (find?-sound (λ p. p.id == phase_id) db.phases c.found) in
    let row = new_step env c.phase payload in
    rw (e', e)
      (
        c,
        same,
        refl,
        refl,
        refl,
        refl,
        refl,
        refl,
        refl,
        refl,
        subst
            (λ i. find? (has_number i payload.step_no) (db.acceptance_steps ++ row ∷ []) ≡ some row)
            same
            (find?-append_none (has_number c.phase.id payload.step_no) db.acceptance_steps row
              (any-none (has_number c.phase.id payload.step_no) db.acceptance_steps c.free)
              (ground (arith, ==_refl c.phase.id, eq_ℤ_refl payload.step_no))),
      )

-- A creation that returns keeps the numbers of the steps distinct in each phase, and keeps that a step
-- has a completion time exactly when it is completed.
pub create_step_keeps :
    (env : Env) (actor : User) (phase_id : ℕ) (payload : AcceptanceStepCreate) (db : Db)
    {r : Db × AcceptanceStep}
    → create_step env actor phase_id payload db ≡ ok r
    → numbered db.acceptance_steps ≡ true
    → all is_dated db.acceptance_steps ≡ true
    → (numbered r.0.acceptance_steps ≡ true) × (all is_dated r.0.acceptance_steps ≡ true)
unfolding new_step
create_step_keeps env actor phase_id payload db h numbers dates =
    let (c, e, e') = create_step-eq-ok env actor phase_id payload db h in
    rw (e', e)
      (
        numbered-append (new_step env c.phase payload) db.acceptance_steps numbers c.free,
        all-append_one is_dated db.acceptance_steps (new_step env c.phase payload) dates refl,
      )

not_completed :
    (s : AcceptanceStepStatus) → s ≢ AcceptanceStepStatus.completed → is_completed_step s ≡ false
not_completed AcceptanceStepStatus.not_started h = refl
not_completed AcceptanceStepStatus.in_progress h = refl
not_completed AcceptanceStepStatus.completed h = absurd (h refl)

-- An update that returns leaves the step of an acceptance phase in progress found with the new status,
-- now as its time of update, and else as it was but for the completion time: now if it is completed, for
-- which it had a report uploaded, and none if it is not; and it keeps that every step has a completion
-- time exactly when it is completed.
pub update_step_effect :
    (env : Env) (actor : User) (phase_id step_id : ℕ) (status : AcceptanceStepStatus) (db : Db)
    {r : Db × AcceptanceStep}
    → update_step env actor phase_id step_id status db ≡ ok r
    → all is_dated db.acceptance_steps ≡ true
    → (phase : Phase) × (step : AcceptanceStep) × (get_phase phase_id db ≡ some phase)
      × (phase.phase_no ≡ 4)
      × (is_in_progress phase.status ≡ true)
      × (get_step step_id db ≡ some step)
      × (step.phase_id ≡ phase.id)
      × (r.1
          ≡ record step { status = status; completed_at = r.1.completed_at; updated_at = env.now })
      × (status ≡ AcceptanceStepStatus.completed → r.1.completed_at ≡ some env.now)
      × (status ≢ AcceptanceStepStatus.completed → r.1.completed_at ≡ none)
      × (get_step step_id r.0 ≡ some r.1)
      × (is_completed_step status ≡ true → 1 ≤ count_step_reports step_id db)
      × (all is_dated r.0.acceptance_steps ≡ true)
unfolding update_step get_step
update_step_effect env actor phase_id step_id status db h dates =
    let (phase, found, h1) = from_option->>=-eq-ok (get_phase phase_id db) _ _ h in
    let (sub, scope, h2) = from_option->>=-eq-ok (get_sub_project phase.sub_project_id db) _ _ h1 in
    let (u, accepts, h3) = >>=-eq-ok (ensure_phase_accepts_steps phase) _ h2 in
    let (fourth, running) = accepting phase u accepts in
    let (step, here, h4) = from_option->>=-eq-ok (get_step step_id db) (not_found no_step) _ h3 in
    let (own, h5) = guard->>-eq-ok (step.phase_id == phase.id) (not_found no_step) _ h4 in
    let (allowed, h6) = guard->>-eq-ok (can_update actor sub step) permission_denied _ h5 in
    let (reported, h7) =
      guard->>-eq-ok (not (is_completed_step status) || leb 1 (count_step_reports step.id db))
        (business (step_report_missing step.id)) _ h6 in
    let same = (==_iff _ _).0 (find?-sound (λ s. s.id == step_id) db.acceptance_steps here) in
    let row = restamped env status step in
    rw (sym (ok-injective h7)) (
      phase,
      step,
      found,
      fourth,
      running,
      here,
      (==_iff _ _).0 own,
      refl,
      λ done. rw done refl,
      λ open_still. rw (not_completed status open_still) refl,
      subst
          (λ i.
            find? (λ s. s.id == step_id) (put (λ s. s.id == i) row db.acceptance_steps) ≡ some row)
          (sym same)
          (find?-put (λ s. s.id == step_id) db.acceptance_steps row here ((==_iff _ _).1 same)),
      λ done. subst (λ i. 1 ≤ count_step_reports i db) same (ground (arith, reported, done)),
      all-put is_dated (λ s. s.id == row.id) row db.acceptance_steps dates
          (elim (Bool-cases (is_completed_step status)) [
            | inl t ↦ ground (arith, t)
            | inr f ↦ ground (arith, f)
          ]),
    )
