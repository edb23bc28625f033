-- ===== src/Core.antt =====
-- The headers of an image that do not depend on its sections (pe_bliss2/src/core).
mod Tests
pub mod Samples
pub mod OptionalHeader
pub mod DataDirectories
pub mod FileHeader
pub mod ImageSignature
pub mod Overlay
