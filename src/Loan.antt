-- ===== src/Loan.antt =====
-- Loans against stock: quotes, schedules, repayments, the workflow of an application
-- (app/services/loan_*.py).
pub mod Terms
pub mod Payment
pub mod Allocation
pub mod Quotes
pub mod Calendar
pub mod Schedule
pub mod Waterfall
pub mod PaymentStatus
pub mod Store
pub mod Reservations
pub mod Workflow
pub mod Lifecycle
pub mod Marital
pub mod Drafts
pub mod Submission
pub mod Edits
