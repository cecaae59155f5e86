-- ===== src/Stores.antt =====
-- core/stores.js: the in-memory stores of a single gateway.
pub mod Order
pub mod LeafSet
pub mod RootStore
pub mod Nullifiers
pub mod RootWindows
pub mod Semaphore
pub mod RateLimiter
pub mod Challenges
mod Tests
