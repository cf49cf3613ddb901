-- ===== src/Portfolio/Lifecycle.antt =====
-- The life of a sub project, as backend/app/services/sub_projects.py means it: an abstract machine on
-- the status alone.
use project_lifecycle_manage.Base.{true, false, ◌≡◌, refl, subst, not, arith}
use project_lifecycle_manage.Model.{SubProjectStatus, is_ended_project, is_completed_project}
use project_lifecycle_manage.MainProjects.Closing.{is_open_sub}

infix 50 ◌↝◌ ◌↝*◌
pub data ◌↝◌ : SubProjectStatus → SubProjectStatus → Type 0 where
  resubmission : SubProjectStatus.rejected ↝ SubProjectStatus.pending_review
  approval : SubProjectStatus.pending_review ↝ SubProjectStatus.in_progress
  refusal : SubProjectStatus.pending_review ↝ SubProjectStatus.rejected
  closing_early : SubProjectStatus.in_progress ↝ SubProjectStatus.closed
  closing : SubProjectStatus.completed ↝ SubProjectStatus.closed
  termination :
      {s : SubProjectStatus} → not (is_ended_project s) ≡ true → s ↝ SubProjectStatus.terminated

pub data ◌↝*◌ : SubProjectStatus → SubProjectStatus → Type 0 where
  rest : {s : SubProjectStatus} → s ↝* s
  then_move : {s t u : SubProjectStatus} → s ↝* t → t ↝ u → s ↝* u

pub ↝*_trans : {s t u : SubProjectStatus} → s ↝* t → t ↝* u → s ↝* u
↝*_trans p rest = p
↝*_trans p (then_move q m) = then_move (↝*_trans p q) m

-- No move leaves a closed or a terminated sub project.
ended_↝ : {s t : SubProjectStatus} → s ↝ t → not (is_ended_project s) ≡ true
ended_↝ resubmission = refl
ended_↝ approval = refl
ended_↝ refusal = refl
ended_↝ closing_early = refl
ended_↝ closing = refl
ended_↝ (termination h) = h

-- A sub project that is not open stays so.
settled_↝ :
    {s t : SubProjectStatus} → s ↝ t → not (is_open_sub s) ≡ true → not (is_open_sub t) ≡ true
settled_↝ resubmission h = ground (arith, h)
settled_↝ approval h = ground (arith, h)
settled_↝ refusal h = ground (arith, h)
settled_↝ closing_early h = refl
settled_↝ closing h = refl
settled_↝ (termination g) h = refl

pub settled_↝* :
    {s t : SubProjectStatus} → s ↝* t → not (is_open_sub s) ≡ true → not (is_open_sub t) ≡ true
settled_↝* rest h = h
settled_↝* (then_move p m) h = settled_↝ m (settled_↝* p h)

pub ended_↝* : {s t : SubProjectStatus} → s ↝* t → is_ended_project s ≡ true → s ≡ t
ended_↝* rest h = refl
ended_↝* (then_move {s} p m) h =
    let same = ended_↝* p h in
    absurd (ground (arith, ended_↝ m, subst (λ x. is_ended_project x ≡ true) same h))

-- No move of these services completes a sub project.
completed_↝ : {s t : SubProjectStatus} → s ↝ t → is_completed_project t ≡ false
completed_↝ resubmission = refl
completed_↝ approval = refl
completed_↝ refusal = refl
completed_↝ closing_early = refl
completed_↝ closing = refl
completed_↝ (termination h) = refl

pub completed_↝* :
    {s t : SubProjectStatus}
    → s ↝* t
    → is_completed_project t ≡ true
    → is_completed_project s ≡ true
completed_↝* rest h = h
completed_↝* (then_move p m) h = absurd (ground (arith, h, completed_↝ m))
