-- ===== src/Image.antt =====
-- The image: its headers, its sections and the data behind addresses (pe_bliss2/src/image and
-- pe_bliss2/src/address_converter.cpp).
mod Tests
pub mod Samples
pub mod AddressConverter
pub mod Layout
pub mod SectionSearch
pub mod OffsetConverter
pub mod Checksum
pub mod SectionData
pub mod Structures
pub mod Writes
pub mod Strings
pub mod Loader
