-- ===== src/Oracle.antt =====
-- The masternode list that core/gateway.js takes from its oracle: what a snapshot has to be, who has to have
-- signed it, and what a refresh does with it.
pub mod Snapshot
pub mod Signatures
pub mod Refresh
pub mod Outcomes
pub mod Vouched
pub mod Agreed
pub mod Quorum
mod Tests
