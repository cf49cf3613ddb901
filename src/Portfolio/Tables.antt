-- ===== src/Portfolio/Tables.antt =====
-- What each step of the services in backend/app/services/main_projects.py and sub_projects.py does to
-- the tables of main projects and of sub projects.
use project_lifecycle_manage.Base.{
  ℕ, ◌==◌, ==_iff, Option, none, Bool, true, false, not, ◌&&◌, ◌||◌, some, List, [], ◌∷◌, ◌++◌, ◌≡◌,
  refl, sym, ap, subst, ◌⊎◌, inl, inr, arith, find?, find?-sound, all, count, pos, suc, Bool-cases,
  ==_refl,
}
use project_lifecycle_manage.Model.{
  Db, Env, User, SubProject, SubProjectStatus, MainProject, MainProjectStatus,
  ProjectReviewDecision, is_closed_main, is_open_main, is_pending_project, is_rejected_project,
  is_started_project, is_completed_project, is_rejected_main, Phase, PhaseDefinition,
}
use project_lifecycle_manage.Errors.{ok}
use project_lifecycle_manage.Queries.{
  get_sub_project, get_main_project, save_sub_project, save_main_project,
}
use project_lifecycle_manage.MainProjects.Creation.{
  new_main_project, updated_main_project, submitted_main_project,
}
use project_lifecycle_manage.MainProjects.Review.{
  MainProjectReviewUpdate, reviewed_main_project, apply_review_updates, decided_status,
}
use project_lifecycle_manage.MainProjects.Closing.{
  is_open_sub, count_open_sub_projects, closed_main, restamped_main,
}
use project_lifecycle_manage.MainProjects.Effects.{
  create_project-eq-ok, update_project-eq-ok, submit_project-eq-ok, review_project-eq-ok,
  IsMainClosing, restamps_main, ends_main, close_project-IsMainClosing,
}
use project_lifecycle_manage.SubProjects.Creation.{
  new_sub_project, created_sub_project, updated_sub_project, submitted_sub_project,
}
use project_lifecycle_manage.SubProjects.Review.{
  SubProjectReviewRequest, decide_review, announce_review, with_sub_status, begun_status,
  begun_main, created_phases, phases_from, phase_definitions_for, new_phase, starts_open,
}
use project_lifecycle_manage.Phases.Invariant.{has_times}
use project_lifecycle_manage.SubProjects.Closing.{ended, stamped}
use project_lifecycle_manage.SubProjects.Members.{with_manager, hand_over}
use project_lifecycle_manage.SubProjects.Effects.{
  create_sub_project-eq-ok, update_sub_project-eq-ok, submit_sub_project-eq-ok,
  review_sub_project-IsReviewed, decide_review-approve, decide_review-reject, IsClosing, restamps,
  ends, close_sub_project-IsClosing, terminate_sub_project-eq-ok,
}
use project_lifecycle_manage.SubProjects.Staffing.{
  add_sub_project_member-IsAdded, remove_sub_project_member-eq-ok,
  handover_sub_project-IsHandedOver,
}
use project_lifecycle_manage.Portfolio.{
  ◌⇒◌, founds, revises, proposes, judges, concludes, creates, updates, submits, reviews, closes,
  terminates, adds_member, removes_member, hands_over,
}
use project_lifecycle_manage.Portfolio.Lifecycle.{
  ◌↝*◌, rest, then_move, resubmission, approval, refusal, closing_early, closing, termination,
}

-- No sub project of main project `m` is open.
abbrev pub has_no_open : ℕ → List SubProject → Bool
has_no_open m ss = all (λ s. not (s.main_project_id == m) || not (is_open_sub s.status)) ss

pub data SubChange (a b : Db) : Type 0 where
  kept : b.sub_projects ≡ a.sub_projects → SubChange a b
  added :
      (s : SubProject) (m : MainProject)
      → s.status ≡ SubProjectStatus.pending_review
      → s.spent_amount ≡ pos 0
      → get_main_project s.main_project_id a ≡ some m
      → is_open_main m.status ≡ true
      → b.sub_projects ≡ a.sub_projects ++ s ∷ []
      → SubChange a b
  written :
      (s s' : SubProject)
      → find? (λ r. r.id == s'.id) a.sub_projects ≡ some s
      → s'.main_project_id ≡ s.main_project_id
      → s'.spent_amount ≡ s.spent_amount
      → s.status ↝* s'.status
      → b.sub_projects ≡ save_sub_project s' a.sub_projects
      → SubChange a b

-- A main project is closed only where it was, or where its sub projects are settled.
pub data MainChange (a b : Db) : Type 0 where
  kept : b.main_projects ≡ a.main_projects → MainChange a b
  added :
      (m : MainProject)
      → is_closed_main m.status ≡ false
      → m.spent_amount ≡ pos 0
      → b.sub_projects ≡ a.sub_projects
      → b.main_projects ≡ a.main_projects ++ m ∷ []
      → MainChange a b
  written :
      (m m' : MainProject)
      → find? (λ r. r.id == m'.id) a.main_projects ≡ some m
      → m'.spent_amount ≡ m.spent_amount
      → (is_closed_main m'.status ≡ true
          → (is_closed_main m.status ≡ true) ⊎ (has_no_open m'.id b.sub_projects ≡ true))
      → b.main_projects ≡ save_main_project m' a.main_projects
      → MainChange a b

-- No payment, no phase history and no revoke request changes.
abbrev pub IsFramed : Db → Db → Type 0
IsFramed a b =
    (b.payments ≡ a.payments)
    × (b.phase_histories ≡ a.phase_histories)
    × (b.revoke_requests ≡ a.revoke_requests)

-- New phases come with the approval of their sub project.
pub data PhaseChange (a b : Db) : Type 0 where
  kept : b.phases ≡ a.phases → PhaseChange a b
  opened :
      (s : SubProject) (new : List Phase)
      → is_completed_project s.status ≡ false
      → all has_times new ≡ true
      → all (λ p. p.sub_project_id == s.id) new ≡ true
      → b.sub_projects ≡ save_sub_project s a.sub_projects
      → b.phases ≡ a.phases ++ new
      → PhaseChange a b

pub record IsChanged (a b : Db) : Type 0 where
  pub subs : SubChange a b
  pub mains : MainChange a b
  pub phases : PhaseChange a b
  pub frame : IsFramed a b

found_self :
    (i : ℕ) (db : Db) {s : SubProject}
    → get_sub_project i db ≡ some s
    → find? (λ r. r.id == s.id) db.sub_projects ≡ some s
unfolding get_sub_project
found_self i db {s} h =
    subst (λ j. find? (λ r. r.id == j) db.sub_projects ≡ some s)
      (sym ((==_iff s.id i).0 (find?-sound (λ r. r.id == i) db.sub_projects h))) h

main_found_self :
    (i : ℕ) (db : Db) {m : MainProject}
    → get_main_project i db ≡ some m
    → find? (λ r. r.id == m.id) db.main_projects ≡ some m
unfolding get_main_project
main_found_self i db {m} h =
    subst (λ j. find? (λ r. r.id == j) db.main_projects ≡ some m)
      (sym ((==_iff m.id i).0 (find?-sound (λ r. r.id == i) db.main_projects h))) h

-- The moves of a submission and of a close.
submitted_move :
    (s : SubProjectStatus)
    → is_pending_project s || is_rejected_project s ≡ true
    → s ↝* SubProjectStatus.pending_review
submitted_move SubProjectStatus.pending_review h = rest
submitted_move SubProjectStatus.rejected h = then_move rest resubmission
submitted_move SubProjectStatus.reviewing h = absurd (ground (arith, h))
submitted_move SubProjectStatus.not_started h = absurd (ground (arith, h))
submitted_move SubProjectStatus.in_progress h = absurd (ground (arith, h))
submitted_move SubProjectStatus.completed h = absurd (ground (arith, h))
submitted_move SubProjectStatus.closed h = absurd (ground (arith, h))
submitted_move SubProjectStatus.terminated h = absurd (ground (arith, h))

closed_move :
    (s : SubProjectStatus)
    → is_started_project s || is_completed_project s ≡ true
    → s ↝* SubProjectStatus.closed
closed_move SubProjectStatus.in_progress h = then_move rest closing_early
closed_move SubProjectStatus.completed h = then_move rest closing
closed_move SubProjectStatus.pending_review h = absurd (ground (arith, h))
closed_move SubProjectStatus.rejected h = absurd (ground (arith, h))
closed_move SubProjectStatus.reviewing h = absurd (ground (arith, h))
closed_move SubProjectStatus.not_started h = absurd (ground (arith, h))
closed_move SubProjectStatus.closed h = absurd (ground (arith, h))
closed_move SubProjectStatus.terminated h = absurd (ground (arith, h))

reviewed_move :
    (s : SubProjectStatus) → is_pending_project s ≡ true → s ≡ SubProjectStatus.pending_review
reviewed_move SubProjectStatus.pending_review h = refl
reviewed_move SubProjectStatus.rejected h = absurd (ground (arith, h))
reviewed_move SubProjectStatus.reviewing h = absurd (ground (arith, h))
reviewed_move SubProjectStatus.not_started h = absurd (ground (arith, h))
reviewed_move SubProjectStatus.in_progress h = absurd (ground (arith, h))
reviewed_move SubProjectStatus.completed h = absurd (ground (arith, h))
reviewed_move SubProjectStatus.closed h = absurd (ground (arith, h))
reviewed_move SubProjectStatus.terminated h = absurd (ground (arith, h))

begun_closed :
    (t : MainProjectStatus) → is_closed_main (begun_status t) ≡ true → is_closed_main t ≡ true
begun_closed MainProjectStatus.closed h = refl
begun_closed MainProjectStatus.not_started h = h
begun_closed MainProjectStatus.pending_review h = h
begun_closed MainProjectStatus.reviewing h = h
begun_closed MainProjectStatus.rejected h = h
begun_closed MainProjectStatus.in_progress h = h
begun_closed MainProjectStatus.completed h = h

decided_closed : (d : ProjectReviewDecision) → is_closed_main (decided_status d) ≡ false
decided_closed ProjectReviewDecision.approve = refl
decided_closed ProjectReviewDecision.reject = refl

none_open :
    (m : ℕ) (ss : List SubProject)
    → count (λ s. s.main_project_id == m && is_open_sub s.status) ss ≡ 0
    → has_no_open m ss ≡ true
unfolding count all
none_open m [] h = refl
none_open m (s ∷ ss) h = ground (arith, none_open m ss)

applied_row :
    (u : Option MainProjectReviewUpdate) (m : MainProject)
    → ((apply_review_updates u m).id ≡ m.id)
      × ((apply_review_updates u m).spent_amount ≡ m.spent_amount)
unfolding apply_review_updates
applied_row none m = (refl, refl)
applied_row (some u) m = (refl, refl)

-- The step returned a pair that is known.
to_changed : {X : Type 0} {a : Db} {r r' : Db × X} → r ≡ r' → IsChanged a r'.0 → IsChanged a r.0
to_changed {a = a} e c = subst (λ x. IsChanged a x.0) (sym e) c

-- One row of the sub projects is written.
sub_written :
    {a b : Db} (s s' : SubProject)
    → s'.id ≡ s.id
    → find? (λ r. r.id == s.id) a.sub_projects ≡ some s
    → s'.main_project_id ≡ s.main_project_id
    → s'.spent_amount ≡ s.spent_amount
    → s.status ↝* s'.status
    → b.sub_projects ≡ save_sub_project s' a.sub_projects
    → b.main_projects ≡ a.main_projects
    → IsFramed a b
    → b.phases ≡ a.phases
    → IsChanged a b
sub_written {a} s s' same found scope spent move rows mains frame phases = record {
  subs =
      written s s' (subst (λ j. find? (λ r. r.id == j) a.sub_projects ≡ some s) (sym same) found)
        scope spent move rows;
  mains = kept mains;
  phases = kept phases;
  frame = frame;
}

main_written :
    {a b : Db} (m m' : MainProject)
    → m'.id ≡ m.id
    → find? (λ r. r.id == m.id) a.main_projects ≡ some m
    → m'.spent_amount ≡ m.spent_amount
    → (is_closed_main m'.status ≡ true
        → (is_closed_main m.status ≡ true) ⊎ (has_no_open m'.id a.sub_projects ≡ true))
    → b.main_projects ≡ save_main_project m' a.main_projects
    → b.sub_projects ≡ a.sub_projects
    → IsFramed a b
    → b.phases ≡ a.phases
    → IsChanged a b
main_written {a} m m' same found spent shut rows subs frame phases = record {
  subs = kept subs;
  mains =
      written m m' (subst (λ j. find? (λ r. r.id == j) a.main_projects ≡ some m) (sym same) found)
        spent
        (subst
          (λ ss.
            is_closed_main m'.status ≡ true
            → (is_closed_main m.status ≡ true) ⊎ (has_no_open m'.id ss ≡ true))
          (sym subs) shut)
        rows;
  phases = kept phases;
  frame = frame;
}

-- A main project that is written without being closed.
not_closed :
    {P : Type 0} (t : MainProjectStatus) → is_closed_main t ≡ false → is_closed_main t ≡ true → P
not_closed t h k = absurd (ground (arith, h, k))

rejected_main : (t : MainProjectStatus) → is_rejected_main t ≡ true → is_closed_main t ≡ false
rejected_main MainProjectStatus.rejected h = refl
rejected_main MainProjectStatus.pending_review h = refl
rejected_main MainProjectStatus.reviewing h = refl
rejected_main MainProjectStatus.not_started h = refl
rejected_main MainProjectStatus.in_progress h = refl
rejected_main MainProjectStatus.completed h = refl
rejected_main MainProjectStatus.closed h = absurd (ground (arith, h))

restamped_row :
    (env : Env) (t : Option ℕ) (m : MainProject)
    → ((restamped_main env t m).id ≡ m.id)
      × ((restamped_main env t m).spent_amount ≡ m.spent_amount)
restamped_row env none m = (refl, refl)
restamped_row env (some t) m = (refl, refl)

stamped_row :
    (env : Env) (t : Option ℕ) (s : SubProject)
    → ((stamped env t s).id ≡ s.id)
      × ((stamped env t s).main_project_id ≡ s.main_project_id)
      × ((stamped env t s).status ≡ s.status)
      × ((stamped env t s).spent_amount ≡ s.spent_amount)
stamped_row env none s = (refl, refl, refl, refl)
stamped_row env (some t) s = (refl, refl, refl, refl)

phases_from-has_times :
    (env : Env) (n s : ℕ) (ds : List PhaseDefinition)
    → all has_times (phases_from env n s ds) ≡ true
unfolding all phases_from new_phase
phases_from-has_times env n s [] = refl
phases_from-has_times env n s (d ∷ ds) = elim (Bool-cases (starts_open d.order)) [
  | inl e ↦ ground (arith, e, phases_from-has_times env (suc n) s ds)
  | inr e ↦ ground (arith, e, phases_from-has_times env (suc n) s ds)
]

phases_from-owner :
    (env : Env) (n s : ℕ) (ds : List PhaseDefinition)
    → all (λ p. p.sub_project_id == s) (phases_from env n s ds) ≡ true
unfolding all phases_from new_phase
phases_from-owner env n s [] = refl
phases_from-owner env n s (d ∷ ds) = ground (arith, ==_refl s, phases_from-owner env (suc n) s ds)

created_phases-has_times :
    (env : Env) (s : SubProject) (db : Db) → all has_times (created_phases env s db) ≡ true
unfolding created_phases
created_phases-has_times env s db = phases_from-has_times env 0 s.id (phase_definitions_for s db)

created_phases-owner :
    (env : Env) (s : SubProject) (db : Db)
    → all (λ p. p.sub_project_id == s.id) (created_phases env s db) ≡ true
unfolding created_phases
created_phases-owner env s db = phases_from-owner env 0 s.id (phase_definitions_for s db)

review_change :
    (env : Env) (actor : User) (s : SubProject) (main : MainProject)
    (payload : SubProjectReviewRequest) (d : ProjectReviewDecision) (db : Db) {r : Db × SubProject}
    → decide_review env actor s main payload d db ≡ ok r
    → find? (λ t. t.id == s.id) db.sub_projects ≡ some s
    → get_main_project s.main_project_id db ≡ some main
    → is_pending_project s.status ≡ true
    → IsChanged db (announce_review actor r.1 r.0)
review_change env actor s main payload ProjectReviewDecision.approve db h found scope pending =
    let (fit, e) = decide_review-approve env actor s main payload db h in
    let move : s.status ↝* SubProjectStatus.in_progress =
      subst (λ t. t ↝* SubProjectStatus.in_progress) (sym (reviewed_move s.status pending))
        (then_move rest approval) in
    subst (λ x. IsChanged db (announce_review actor x.1 x.0)) (sym e)
      (record {
        subs =
            written s (with_sub_status env SubProjectStatus.in_progress s) found refl refl move
              refl;
        mains =
            written main (begun_main env main) (main_found_self s.main_project_id db scope) refl
              (λ c. inl (begun_closed main.status c)) refl;
        phases =
            opened (with_sub_status env SubProjectStatus.in_progress s) (created_phases env s db)
              refl (created_phases-has_times env s db) (created_phases-owner env s db) refl refl;
        frame = (refl, refl, refl);
      })
review_change env actor s main payload ProjectReviewDecision.reject db h found scope pending =
    let e = decide_review-reject env actor s main payload db h in
    let move : s.status ↝* SubProjectStatus.rejected =
      subst (λ t. t ↝* SubProjectStatus.rejected) (sym (reviewed_move s.status pending))
        (then_move rest refusal) in
    subst (λ x. IsChanged db (announce_review actor x.1 x.0)) (sym e)
      (sub_written s (with_sub_status env SubProjectStatus.rejected s) refl found refl refl move
        refl refl (refl, refl, refl) refl)

close_change :
    (env : Env) (actor : User) (s : SubProject) (db : Db) {r : Db × SubProject}
    → find? (λ t. t.id == s.id) db.sub_projects ≡ some s
    → IsClosing env actor db s r
    → IsChanged db r.0
close_change env actor s db found (restamps e h) =
    let (same, scope, kind, spent) = stamped_row env s.closed_at s in
    to_changed h (
      sub_written s (stamped env s.closed_at s) same found scope spent
        (subst (λ t. s.status ↝* t) (sym kind) rest) refl refl (refl, refl, refl) refl)
close_change env actor s db found (ends running n c h) = to_changed h (
    sub_written s (ended env SubProjectStatus.closed s) refl found refl refl
      (closed_move s.status running) refl refl (refl, refl, refl) refl)

conclude_change :
    (env : Env) (m : MainProject) (db : Db) {r : Db × MainProject}
    → find? (λ t. t.id == m.id) db.main_projects ≡ some m
    → IsMainClosing env db m r
    → IsChanged db r.0
unfolding count_open_sub_projects
conclude_change env m db found (restamps_main e h) =
    let (same, spent) = restamped_row env m.closed_at m in
    to_changed h (
      main_written m (restamped_main env m.closed_at m) same found spent
        (λ k. inl (ap is_closed_main e)) refl refl (refl, refl, refl) refl)
conclude_change env m db found (ends_main still n h) = to_changed h (
    main_written m (closed_main env m) refl found refl (λ k. inr (none_open m.id db.sub_projects n))
      refl refl (refl, refl, refl) refl)

-- Every step.
pub ⇒-IsChanged : {a b : Db} → a ⇒ b → IsChanged a b
unfolding new_main_project updated_main_project submitted_main_project reviewed_main_project
    get_main_project updated_sub_project submitted_sub_project hand_over new_sub_project
⇒-IsChanged (founds env actor payload {db = a} h) =
    let (manager, e) = create_project-eq-ok env actor payload a h in
    to_changed e (record {
      subs = kept refl;
      mains = added (new_main_project env actor payload a.main_project_no_seq) refl refl refl refl;
      phases = kept refl;
      frame = (refl, refl, refl);
    })
⇒-IsChanged (revises env actor i payload {db = a} h) =
    let (m, found, own, rejected, e) = update_project-eq-ok env actor i payload a h in
    to_changed e (
      main_written m (updated_main_project env payload m) refl (main_found_self i a found) refl
        (not_closed m.status (rejected_main m.status rejected)) refl refl (refl, refl, refl) refl)
⇒-IsChanged (proposes env actor i {db = a} h) =
    let (m, found, own, still, e) = submit_project-eq-ok env actor i a h in
    to_changed e (
      main_written m (submitted_main_project env m) refl (main_found_self i a found) refl
        (not_closed MainProjectStatus.pending_review refl) refl refl (refl, refl, refl) refl)
⇒-IsChanged (judges env actor i payload {db = a} h) =
    let (m, found, reviewer, allowed, pending, e) = review_project-eq-ok env actor i payload a h in
    to_changed e (
      main_written m (reviewed_main_project env payload m) (applied_row payload.updates m).0
        (main_found_self i a found) (applied_row payload.updates m).1
        (not_closed (decided_status payload.decision) (decided_closed payload.decision)) refl refl
        (refl, refl, refl) refl)
⇒-IsChanged (concludes env actor i {db = a} h) =
    let (m, found, manager, c) = close_project-IsMainClosing env actor i a h in
    conclude_change env m a (main_found_self i a found) c
⇒-IsChanged (creates env actor payload {db = a} h) =
    let (main, version, found, still, e) = create_sub_project-eq-ok env actor payload a h in
    to_changed e (record {
      subs =
          added (created_sub_project env actor payload main version a) main refl refl
            (main_found_self payload.main_project_id a found) still refl;
      mains = kept refl;
      phases = kept refl;
      frame = (refl, refl, refl);
    })
⇒-IsChanged (updates env actor i payload {db = a} h) =
    let (s, found, own, rejected, e) = update_sub_project-eq-ok env actor i payload a h in
    to_changed e (
      sub_written s (updated_sub_project env payload s) refl (found_self i a found) refl refl rest
        refl refl (refl, refl, refl) refl)
⇒-IsChanged (submits env actor i {db = a} h) =
    let (s, found, own, still, e) = submit_sub_project-eq-ok env actor i a h in
    to_changed e (
      sub_written s (submitted_sub_project env s) refl (found_self i a found) refl refl
        (submitted_move s.status still) refl refl (refl, refl, refl) refl)
⇒-IsChanged (reviews env actor i payload {db = a} h) =
    let c = review_sub_project-IsReviewed env actor i payload a h in
    to_changed c.returned (
      review_change env actor c.s c.main payload payload.decision a c.decided
        (found_self i a c.found) c.scope c.pending)
⇒-IsChanged (closes env actor i {db = a} h) =
    let (s, found, manager, c) = close_sub_project-IsClosing env actor i a h in
    close_change env actor s a (found_self i a found) c
⇒-IsChanged (terminates env actor i {db = a} h) =
    let (s, found, still, e) = terminate_sub_project-eq-ok env actor i a h in
    to_changed e (
      sub_written s (ended env SubProjectStatus.terminated s) refl (found_self i a found) refl refl
        (then_move rest (termination still)) refl refl (refl, refl, refl) refl)
⇒-IsChanged (adds_member env actor i user_id {db = a} h) =
    to_changed (add_sub_project_member-IsAdded env actor i user_id a h).returned (record {
      subs = kept refl;
      mains = kept refl;
      phases = kept refl;
      frame = (refl, refl, refl);
    })
⇒-IsChanged (removes_member actor i user_id {db = a} h) =
    let (s, m, found, row, removable, e) = remove_sub_project_member-eq-ok actor i user_id a h in
    to_changed e (record {
      subs = kept refl;
      mains = kept refl;
      phases = kept refl;
      frame = (refl, refl, refl);
    })
⇒-IsChanged (hands_over env actor i payload expected {db = a} h) =
    let c = handover_sub_project-IsHandedOver env actor i payload expected a h in
    to_changed c.returned (
      sub_written c.s (with_manager env payload.to_user_id c.s) refl (found_self i a c.found) refl
        refl rest refl refl (refl, refl, refl) refl)
