-- ===== src/SubProjects.antt =====
-- `SubProjectService` of backend/app/services/sub_projects.py: how a sub project comes to be, is
-- reviewed, staffed, handed over and ended.
pub mod Creation
pub mod Review
pub mod Members
pub mod Closing
pub mod Effects
pub mod Staffing
pub mod Approval
pub mod Handovers
pub mod Budget
pub mod Ending
pub mod Leaders
pub mod Numbers
pub mod Definitions
