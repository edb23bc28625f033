-- ===== src/Rich.antt =====
-- The rich header: the record between the DOS stub and the PE header (src/rich,
-- src/detail/rich/rich_header_utils.cpp).
pub mod Utils
pub mod Loader
pub mod Builder
mod Tests
use pe_bliss.Base.{ℕ, List}

-- The fields are words of 16, 16 and 32 bits.
pub record RichCompid : Type 0 where
  pub build_number : ℕ
  pub prod_id : ℕ
  pub use_count : ℕ

pub record RichHeader : Type 0 where
  pub checksum : ℕ
  pub dans_relative_offset : ℕ
  pub dans_absolute_offset : ℕ
  pub compids : List RichCompid
