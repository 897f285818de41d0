-- ===== src/Tests.antt =====
-- Runs of the modelled code on small inputs, and each theorem at an input that meets its conditions.
pub mod Pricing
pub mod Repository
pub mod Outbox
pub mod Consumers
pub mod Services
pub mod Onboard
pub mod Gateway
pub mod System
pub mod Stale
pub mod Sync
pub mod ReadBack
pub mod Interleaving
pub mod Json
pub mod Config
pub mod App
