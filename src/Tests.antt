-- ===== src/Tests.antt =====
-- Concrete inputs: the theorems at inputs that meet their conditions, and runs of the code.
pub mod Sample
mod Sums
mod Media
pub mod Namespaces
pub mod Regions
mod Walks
mod Metas
mod Labels
mod Bitmaps
mod Arenas
pub mod Commands
mod Writes
mod Updates
