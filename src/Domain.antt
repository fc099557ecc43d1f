-- ===== src/Domain.antt =====
-- crates/vesc-domain: package descriptors, their layout, and the `.vescpkg` wire format.
pub mod Error
pub mod Wire
pub mod PkgDesc
pub mod Legacy
pub mod Layout
