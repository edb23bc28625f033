-- ===== src/Errors.antt =====
-- Error codes (the `*_errc` enumerations), the results of fallible code, and error lists.
-- `std::throw_with_nested` keeps the outer code only; the exception's class is not kept.
mod Tests
pub mod List
pub mod Ensures
use pe_bliss.Base.{ℕ, ◌≡◌, refl, Bool, true, false, Option, none, some, ◌⊎◌, inl, inr}

pub data GenericErrc : Type 0 where
  integer_overflow buffer_overrun : GenericErrc

pub data SectionErrc : Type 0 where
  invalid_section_raw_size : SectionErrc
  invalid_section_virtual_size : SectionErrc
  invalid_section_raw_address : SectionErrc
  invalid_section_raw_size_alignment : SectionErrc
  invalid_section_raw_address_alignment : SectionErrc
  raw_section_size_overflow : SectionErrc
  virtual_section_size_overflow : SectionErrc
  invalid_section_virtual_address_alignment : SectionErrc
  virtual_gap_between_sections : SectionErrc
  invalid_section_low_alignment : SectionErrc
  unable_to_read_section_table : SectionErrc
  invalid_section_offset : SectionErrc
  unable_to_read_section_data : SectionErrc

pub data OptionalHeaderErrc : Type 0 where
  invalid_pe_magic : OptionalHeaderErrc
  invalid_address_of_entry_point : OptionalHeaderErrc
  unaligned_image_base : OptionalHeaderErrc
  too_large_image_base : OptionalHeaderErrc
  incorrect_section_alignment : OptionalHeaderErrc
  incorrect_file_alignment : OptionalHeaderErrc
  file_alignment_out_of_range : OptionalHeaderErrc
  section_alignment_out_of_range : OptionalHeaderErrc
  too_low_subsystem_version : OptionalHeaderErrc
  invalid_size_of_heap : OptionalHeaderErrc
  invalid_size_of_stack : OptionalHeaderErrc
  invalid_size_of_headers : OptionalHeaderErrc
  no_base_of_data_field : OptionalHeaderErrc
  unable_to_read_optional_header : OptionalHeaderErrc
  invalid_size_of_optional_header : OptionalHeaderErrc
  invalid_size_of_image : OptionalHeaderErrc

pub data ImageErrc : Type 0 where
  too_many_sections too_many_rva_and_sizes section_data_does_not_exist : ImageErrc

pub data AddressConverterErrc : Type 0 where
  address_conversion_overflow : AddressConverterErrc

pub data RelocationEntryErrc : Type 0 where
  relocation_param_is_absent : RelocationEntryErrc
  unsupported_relocation_type : RelocationEntryErrc
  too_large_relocation_address : RelocationEntryErrc
  invalid_relocation_entry : RelocationEntryErrc

pub data RelocationLoaderErrc : Type 0 where
  invalid_relocation_block_size : RelocationLoaderErrc
  unaligned_relocation_entry : RelocationLoaderErrc
  invalid_directory_size : RelocationLoaderErrc
  invalid_relocation_entry : RelocationLoaderErrc

pub data RebaseErrc : Type 0 where
  unable_to_rebase_inexistent_data invalid_relocation_address : RebaseErrc

pub data ChecksumErrc : Type 0 where
  invalid_checksum_offset unaligned_checksum unaligned_buffer : ChecksumErrc

pub data RefBufferErrc : Type 0 where
  unable_to_read_data data_is_not_copied : RefBufferErrc

pub data RichHeaderErrc : Type 0 where
  invalid_rich_header_offset : RichHeaderErrc
  unaligned_rich_header_offset : RichHeaderErrc
  unable_to_calculate_rich_signature : RichHeaderErrc

pub data RichHeaderLoaderErrc : Type 0 where
  no_dans_signature unable_to_decode_compids : RichHeaderLoaderErrc

pub data RichHeaderBuilderErrc : Type 0 where
  unable_to_build_rich_header : RichHeaderBuilderErrc

pub data DosHeaderErrc : Type 0 where
  invalid_dos_header_signature : DosHeaderErrc
  unaligned_e_lfanew : DosHeaderErrc
  invalid_e_lfanew : DosHeaderErrc
  unable_to_read_dos_header : DosHeaderErrc

pub data DosStubErrc : Type 0 where
  unable_to_read_dos_stub : DosStubErrc

pub data ImageSignatureErrc : Type 0 where
  invalid_pe_signature unable_to_read_pe_signature : ImageSignatureErrc

pub data FileHeaderErrc : Type 0 where
  unable_to_read_file_header : FileHeaderErrc

pub data DataDirectoriesErrc : Type 0 where
  unable_to_read_data_directory : DataDirectoriesErrc

pub data OverlayErrc : Type 0 where
  unable_to_read_overlay : OverlayErrc

pub data ImageLoaderErrc : Type 0 where
  unable_to_load_full_headers_buffer : ImageLoaderErrc
  unable_to_load_full_section_buffer : ImageLoaderErrc

-- `std::error_code`: a category, and a code of it.
pub data Error : Type 0 where
  generic : GenericErrc → Error
  section : SectionErrc → Error
  optional_header : OptionalHeaderErrc → Error
  image : ImageErrc → Error
  address_converter : AddressConverterErrc → Error
  relocation_entry : RelocationEntryErrc → Error
  relocation_loader : RelocationLoaderErrc → Error
  rebase : RebaseErrc → Error
  checksum : ChecksumErrc → Error
  ref_buffer : RefBufferErrc → Error
  rich_header : RichHeaderErrc → Error
  rich_header_loader : RichHeaderLoaderErrc → Error
  rich_header_builder : RichHeaderBuilderErrc → Error
  dos_header : DosHeaderErrc → Error
  dos_stub : DosStubErrc → Error
  image_signature : ImageSignatureErrc → Error
  file_header : FileHeaderErrc → Error
  data_directories : DataDirectoriesErrc → Error
  overlay : OverlayErrc → Error
  image_loader : ImageLoaderErrc → Error

pub Error-discrete : Discrete Error
Error-discrete = hlevel

-- A call that returns, or throws.
pub data Result {ℓ} (A : Type ℓ) : Type ℓ where
  ok : (returned : A) → Result A
  err : (thrown : Error) → Result A

infixl 5 ◌>>◌ ◌>>=◌
abbrev pub ◌>>=◌ {ℓ κ} : {A : Type ℓ} {B : Type κ} → Result A → (A → Result B) → Result B
err thrown >>= next = err thrown
ok returned >>= next = next returned

abbrev pub ◌>>◌ {ℓ} : {A : Type ℓ} → Result (Unit {0}) → Result A → Result A
check >> next = check >>= λ done. next

-- `if (test) throw e;`
abbrev pub throw_if : Bool → Error → Result (Unit {0})
throw_if true e = err e
throw_if false e = ok tt

-- `if (!add_if_safe(…)) throw e;` and the like.
abbrev pub or_throw {ℓ} : {A : Type ℓ} → Option A → Error → Result A
or_throw none e = err e
or_throw (some a) e = ok a

-- `try { m } catch (...) { std::throw_with_nested(e); }`
abbrev pub rethrow {ℓ} : {A : Type ℓ} → Result A → Error → Result A
rethrow (ok a) e = ok a
rethrow (err _) e = err e

abbrev pub is_ok {ℓ} : {A : Type ℓ} → Result A → Bool
is_ok (ok a) = true
is_ok (err e) = false

pub Result-cases {ℓ} :
    {A : Type ℓ} (r : Result A) → ((a : A) × (r ≡ ok a)) ⊎ ((e : Error) × (r ≡ err e))
Result-cases (ok a) = inl (a, refl)
Result-cases (err e) = inr (e, refl)
