-- ===== src/Utilities.antt =====
-- utilities/include/utilities: overflow-checked arithmetic and alignment of unsigned words.
mod Tests
pub mod Math
pub mod SafeUint
