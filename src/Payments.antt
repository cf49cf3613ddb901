-- ===== src/Payments.antt =====
-- backend/app/services/payments.py: payments with their vouchers, reversals, and what a sub project
-- and a main project have spent.
pub mod Money
pub mod Uploads
pub mod Service
pub mod Spending
pub mod Budget
pub mod Cleanup
pub mod Reversals
