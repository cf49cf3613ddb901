-- ===== src/Revokes.antt =====
-- backend/app/services/revoke_requests.py: requests to open a completed phase again.
pub mod Service
pub mod Review
pub mod Pending
pub mod Soundness
