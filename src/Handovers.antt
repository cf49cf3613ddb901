-- ===== src/Handovers.antt =====
-- `HandoverRequestService` of backend/app/services/handover_requests.py: a leader asks another to take
-- sub projects over.
pub mod Service
pub mod Transfers
pub mod Decisions
