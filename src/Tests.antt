-- ===== src/Tests.antt =====
-- Concrete runs of the model, and its theorems at concrete inputs.
mod Stock
mod Loan
mod Quote
mod Submission
mod Edits
mod Lifecycle
mod Auth
mod Security
mod Sessions
