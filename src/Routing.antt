-- ===== src/Routing.antt =====
-- Which channels a request may go to: backend/app/services/channel_health.py and
-- backend/app/providers/registry.py.
pub mod Health
pub mod Order
pub mod Fallbacks
pub mod Counts
pub mod Planned
pub mod Refused
pub mod Breaker
pub mod Shuffles
pub mod Candidates
pub mod Listing
mod Listed
mod Examples
