-- ===== src/Stock.antt =====
-- The stock programme: grants, vesting, eligibility (app/services/vesting_engine.py,
-- app/services/stock_grants.py, app/services/eligibility.py, app/services/stock_reservations.py).
pub mod Vesting
pub mod Membership
pub mod Grants
pub mod Eligibility
