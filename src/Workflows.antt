-- ===== src/Workflows.antt =====
-- `WorkflowService` of backend/app/services/workflows.py: project types, workflow templates and their
-- versions.
pub mod Service
pub mod Publishing
