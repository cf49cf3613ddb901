-- ===== src/Phases/Tables.antt =====
-- Facts about the phase table that the services share: the phases of a sub project, and which of
-- them a promotion activates.
use project_lifecycle_manage.Base.{
  ℕ, ◌+◌, ◌==◌, Bool, true, false, not, ◌||◌, ◌≡◌, refl, some, List, [], ◌∷◌, arith, find?, filter,
  any, any-eq-false, Bool-cases, inl, inr, all, find?-put_ne, find?-all, all-filter, all_mono,
  all-sort_by, leb, ◌∙◌,
}
use project_lifecycle_manage.Model.{Phase, PhaseStatus, is_completed, is_waiting}
use project_lifecycle_manage.Queries.{phases_in, save_phase}
use project_lifecycle_manage.Phases.Service.{activate_next_phase}

-- Every phase of the sub project is completed.
unfoldable pub phases_done : ℕ → List Phase → Bool
phases_done s = all (λ p. not (p.sub_project_id == s) || is_completed p.status)

pub all-phases_in :
    (q : Phase → Bool) (s : ℕ) (ps : List Phase)
    → all q (phases_in s ps) ≡ all (λ p. not (p.sub_project_id == s) || q p) ps
unfolding phases_in
all-phases_in q s ps =
    all-sort_by q (λ a b. leb a.phase_no b.phase_no) (filter (λ p. p.sub_project_id == s) ps)
    ∙ all-filter (λ p. p.sub_project_id == s) q ps

pub all-phases_in-phases_done :
    (s : ℕ) (ps : List Phase) → all (λ p. is_completed p.status) (phases_in s ps) ≡ phases_done s ps
unfolding phases_done
all-phases_in-phases_done s ps = all-phases_in (λ p. is_completed p.status) s ps

-- What holds of the whole table holds of the phases of a sub project.
pub phases_in-all :
    (q : Phase → Bool) (s : ℕ) (ps : List Phase) → all q ps ≡ true → all q (phases_in s ps) ≡ true
phases_in-all q s ps h =
    rw all-phases_in
      (all_mono q (λ p. not (p.sub_project_id == s) || q p) ps (λ p. λ k. ground arith) h)

phases_of :
    (s : ℕ) (ps : List Phase)
    → all (λ p. not (p.sub_project_id == s) || p.sub_project_id == s) ps ≡ true
unfolding all
phases_of s [] = refl
phases_of s (p ∷ ps) = ground (arith, phases_of s ps)

-- What the query returns belongs to the sub project.
pub phases_in-sub_project :
    (s : ℕ) (ps : List Phase) → all (λ p. p.sub_project_id == s) (phases_in s ps) ≡ true
phases_in-sub_project s ps = all-phases_in (λ p. p.sub_project_id == s) s ps ∙ phases_of s ps

-- An activated phase is a waiting row of the list, with its status and times set.
pub activate_next_phase-eq-some :
    (phase : Phase) (phases : List Phase) (now : ℕ) {next : Phase}
    → activate_next_phase phase phases now ≡ some next
    → (old : Phase) × (find? (λ p. p.phase_no == phase.phase_no + 1) phases ≡ some old)
      × (is_waiting old.status ≡ true)
      × (next
          ≡ record old { status = PhaseStatus.in_progress; enter_at = some now; updated_at = now })
      × ((phase.phase_no == 1 || (phase.phase_no == 2 || phase.phase_no == 3)) ≡ true)
unfolding activate_next_phase
activate_next_phase-eq-some phase phases now h = ground arith

-- What holds of the rows of the list, and does not look at what the activation sets, holds of it.
pub activated-all :
    (phase : Phase) (phases : List Phase) (now : ℕ) (q : Phase → Bool) {next : Phase}
    → ((old : Phase)
        → q (record old { status = PhaseStatus.in_progress; enter_at = some now; updated_at = now })
          ≡ q old)
    → activate_next_phase phase phases now ≡ some next
    → all q phases ≡ true
    → q next ≡ true
activated-all phase phases now q blind h a =
    let (old, found, waits, e, low) = activate_next_phase-eq-some phase phases now h in
    rw (e, blind old) (find?-all (λ p. p.phase_no == phase.phase_no + 1) q phases found a)

-- A write does not touch the rows of other ids.
pub find?-save_phase_ne :
    (i : ℕ) (p : Phase) (ps : List Phase)
    → (p.id == i) ≡ false
    → find? (λ r. r.id == i) (save_phase p ps) ≡ find? (λ r. r.id == i) ps
find?-save_phase_ne i p ps h =
    find?-put_ne (λ r. r.id == i) (λ r. r.id == p.id) p ps (λ r e. ground arith) h

-- A phase that is found among those of a sub project has its row in the table.
pub find?-phases_in-any :
    (p q : Phase → Bool) (s : ℕ) (ps : List Phase) {x : Phase}
    → find? p (phases_in s ps) ≡ some x
    → q x ≡ true
    → any q ps ≡ true
find?-phases_in-any p q s ps {x} h k = elim (Bool-cases (any q ps)) [
  | inl y ↦ y
  | inr n ↦
      let no =
        find?-all p (λ r. not (q r)) (phases_in s ps) h
          (phases_in-all (λ r. not (q r)) s ps (any-eq-false q ps n)) in
      ground (arith, no)
]
