-- ===== src/Model.antt =====
-- mognet/model and mognet/exceptions: result states, the values that are stored, results.
pub mod State
pub mod Value
pub mod Result
pub mod StateSets
