-- ===== src/Tests.antt =====
-- Example runs of the services under backend/app/services on one small database.
mod Data
mod Promotions
mod Reviews
mod Spendings
mod Histories
mod Acceptances
mod Assignments
mod Portfolios
mod Requests
mod Templates
mod Closings
