-- ===== src/Namespace.antt =====
-- ndctl/namespace.c: the commands that create, reconfigure and destroy namespaces.
pub mod Params
pub mod Defaults
pub mod Attributes
pub mod Checks
pub mod Validate
pub mod Control
pub mod Setup
pub mod Labels
pub mod Reconfig
pub mod Walk
