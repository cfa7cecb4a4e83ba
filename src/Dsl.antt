-- ===== src/Dsl.antt =====
-- bindings/python/dsl.py: the pattern syntax, the query records, predicates and validators.
pub mod Syntax
pub mod Query
pub mod Predicate
pub mod Validate
pub mod Documents
