-- ===== src/Buffers.antt =====
-- Input buffers (buffers/include, buffers/src): ranges of bytes that are read by position, and
-- the views of them from which the library's parsers read.
mod Tests
pub mod Samples
pub mod Input
pub mod Views
pub mod Reader
pub mod Output
pub mod Copy
pub mod RefBuffer
