-- ===== src/Section.antt =====
-- The section headers of an image (pe_bliss2/src/section).
mod Tests
pub mod Samples
pub mod Header
pub mod Search
pub mod Table
pub mod Data
pub mod Validator
