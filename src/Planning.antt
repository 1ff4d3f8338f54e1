-- ===== src/Planning.antt =====
-- Which channels and models a request is given: backend/app/services/pre_checks.py,
-- budget_usage.py, downgrade.py, sticky_session.py and routing.py.
pub mod Allowed
pub mod Budgets
pub mod Sessions
pub mod Route
mod Pressure
mod Served
mod Steady
mod Sticky
mod Examples
