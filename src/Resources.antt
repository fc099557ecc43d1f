-- ===== src/Resources.antt =====
-- crates/vesc-mcp-core/src/resources: the resource URIs and their subscriptions.
pub mod Uri
pub mod Subscriptions
