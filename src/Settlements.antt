-- ===== src/Settlements.antt =====
-- Durable reservations and their settlement: backend/app/services/settlements.py, and the operator's
-- actions of backend/app/routers/settlements.py.
pub mod Store
pub mod Reserve
pub mod Usage
pub mod Apply
pub mod Recovery
pub mod Operator
pub mod Rows
pub mod Moves
pub mod Steps
pub mod Effects
pub mod Outcomes
pub mod Kinds
pub mod Soundness
pub mod Accounts
pub mod Ledger
pub mod Budget
pub mod Quota
pub mod Replays
pub mod Runs
mod Recovered
mod Examples
pub mod Closing
