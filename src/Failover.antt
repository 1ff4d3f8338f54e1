-- ===== src/Failover.antt =====
-- Sending a request to its channels, backend/app/services/proxy.py, with what it calls: failover.py,
-- error_detail.py, stream_outcomes.py and key_pool.py.
pub mod Texts
pub mod Errors
pub mod Details
pub mod Outcome
pub mod Usage
pub mod Keys
pub mod Billing
pub mod Attempts
pub mod Execute
pub mod Statuses
pub mod Meters
pub mod Passes
pub mod Bounded
pub mod Bills
pub mod Unreached
pub mod Resends
pub mod Keeping
pub mod Settling
pub mod Books
pub mod Ends
mod Examples
pub mod Streaming
pub mod Relay
pub mod Stream
pub mod Reading
pub mod Delivery
pub mod Standing
pub mod StreamEnds
mod StreamExamples
