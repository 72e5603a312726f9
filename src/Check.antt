-- ===== src/Check.antt =====
-- ndctl/check.c: the checker of BTT (sector mode) namespaces.
pub mod Defs
pub mod Loop
pub mod Log
pub mod Map
pub mod Arena
pub mod Info
pub mod Indices
pub mod Meta
pub mod Media
pub mod Recover
pub mod Discover
pub mod Mappings
pub mod Blocks
pub mod Arenas
pub mod Namespace
