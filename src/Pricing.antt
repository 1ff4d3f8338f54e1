-- ===== src/Pricing.antt =====
-- Customer prices: backend/app/services/billing_quotes.py and pricing.py.
pub mod Rounding
pub mod Catalog
pub mod Quotes
pub mod Bounds
pub mod Snapshots
pub mod Tokens
mod Examples
