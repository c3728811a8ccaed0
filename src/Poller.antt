-- ===== src/Poller.antt =====
-- backend/stocktrack/services/poller.py: one check of a watch.
pub mod Types
pub mod Prices
pub mod Staging
pub mod Offers
pub mod Closures
pub mod Dispatch
pub mod Check
pub mod Settling
pub mod Frames
pub mod Stages
pub mod Rows
pub mod Validity
pub mod Delivery
pub mod Reverts
pub mod Undo
pub mod Places
pub mod Retry
pub mod Delisting
pub mod Failed
pub mod Baseline
pub mod Samples
mod Tests
