-- ===== src/Backend.antt =====
-- mognet/backend: where results, their values, their children and their metadata are kept.
pub mod Memory
pub mod View
pub mod Base
pub mod Redis
