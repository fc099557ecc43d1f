-- ===== src/Knowledge.antt =====
-- crates/vesc-knowledge-index: what the question pipeline is built from.
pub mod Investigation
pub mod Sorting
pub mod Planning
pub mod Pipeline
pub mod Graph
pub mod Fusion
pub mod Reranking
