-- ===== src/Acceptance.antt =====
-- backend/app/services/acceptance_steps.py: the steps of an acceptance phase.
pub mod Service
pub mod Steps
