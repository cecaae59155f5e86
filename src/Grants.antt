-- ===== src/Grants.antt =====
-- adapters/common/grant_ledger.js: the ledger of the access that an adapter has granted.
pub mod Ledger
pub mod Machine
pub mod Others
pub mod Tracked
pub mod Begins
pub mod Resumes
pub mod Covered
pub mod Grows
pub mod Clock
pub mod Expired
pub mod Swept
pub mod Discord
pub mod Channels
pub mod Rooms
pub mod Scope
mod Tests
pub mod Revisions
pub mod Held
pub mod Bound
