-- ===== src/Tests.antt =====
-- Runs on concrete inputs, and the theorems at inputs where their hypotheses hold.
mod Wire
mod Package
mod Uri
mod Knowledge
mod Pipeline
mod Graph
mod Fusion
mod Subscriptions
mod Reranking
