-- ===== src/MainProjects.antt =====
-- `MainProjectService` of backend/app/services/main_projects.py.
pub mod Creation
pub mod Review
pub mod Closing
pub mod Effects
