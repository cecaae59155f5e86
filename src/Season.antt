-- ===== src/Season.antt =====
-- core/season.js: the members trees of one season, a cache over the durable registrations.
pub mod State
pub mod Trees
pub mod Commit
pub mod Synced
pub mod Reconcile
pub mod Ensure
pub mod Publish
pub mod History
pub mod Kept
pub mod Tests
