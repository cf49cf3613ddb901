-- ===== src/Numbering.antt =====
-- Running numbers such as `P-PAY-007`: `f"{prefix}-PAY-{sequence:03d}"` and
-- `next_sequence_from_payment_numbers` of backend/app/services/payments.py, and their twins for tasks
-- in backend/app/services/tasks.py. The separator is an argument.
mod Decimal
pub mod Fresh
unfoldable pub use Decimal.{to_decimal, pad3}
unfoldable pub use Fresh.*
