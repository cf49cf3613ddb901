-- ===== src/Phases.antt =====
-- backend/app/services/phases.py: what a phase must show before it is promoted, and the promotion.
pub mod Rules
pub mod Guards
pub mod Service
pub mod Promotion
pub mod Demands
pub mod Tables
pub mod Effects
pub mod Invariant
pub mod Completion
