-- ===== src/Relocations.antt =====
-- The base relocations of an image (pe_bliss2/src/relocations).
mod Tests
pub mod Entry
pub mod Builder
pub mod Rebase
pub mod Loader
