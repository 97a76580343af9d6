-- ===== src/Worker.antt =====
-- mognet/worker/worker.py: the worker, as operations on the state of its node.
pub mod Node
pub mod Throttling
pub mod Admission
pub mod Processing
