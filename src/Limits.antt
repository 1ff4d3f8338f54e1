-- ===== src/Limits.antt =====
-- The limits on requests, tokens and concurrent calls: backend/app/services/rate_limit.py,
-- concurrency.py and spend_windows.py.
pub mod Rate
pub mod Concurrency
pub mod Counts
pub mod Leases
pub mod Windows
pub mod Spending
mod Examples
