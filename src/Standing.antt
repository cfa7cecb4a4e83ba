-- ===== src/Standing.antt =====
-- bindings/python/standing/runtime.py: the standing-query runtime.
pub mod Match
pub mod Graph
pub mod Runtime
