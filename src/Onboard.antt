-- ===== src/Onboard.antt =====
-- clients/onboard-sync: the offline queue of a vessel.
pub mod Operation
pub mod Retry
pub mod Queue
pub mod Store
pub mod Syncer
pub mod Interleaving
pub mod Json
pub mod Port
pub mod Transport
pub mod Client
