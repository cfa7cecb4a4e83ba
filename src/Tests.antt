-- ===== src/Tests.antt =====
-- Concrete events, queries and runtimes, the tests on them, and the theorems at concrete inputs.
pub mod Samples
mod Matching
mod Graphs
mod Runtimes
mod Scores
mod Documents
mod Polls
mod Chains
mod Security
mod Bridges
mod Batches
mod Queries
mod Inputs
mod Knowledge
mod Measures
mod Timelines
