-- ===== src/Tools.antt =====
-- mognet/tools: retries with backoff, the representation of arguments, and the merging of streams.
pub mod KwargsRepr
pub mod Retries
