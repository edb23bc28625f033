-- ===== src/Section/Samples.antt =====
-- Two sections of an executable, for the tests.
use pe_bliss.Base.{[], ◌∷◌, arith, All}
use pe_bliss.Section.Header.{SectionHeader, IsValid}
use pe_bliss.Section.Table.{SectionTable}

abbrev pub text : SectionHeader
text = record {
  name = 0x2e ∷ 0x74 ∷ 0 ∷ 0 ∷ 0 ∷ 0 ∷ 0 ∷ 0 ∷ [];
  virtual_size = 0x1234;
  virtual_address = 0x1000;
  size_of_raw_data = 0x1400;
  pointer_to_raw_data = 0x400;
  pointer_to_relocations = 0;
  pointer_to_line_numbers = 0;
  number_of_relocations = 0;
  number_of_line_numbers = 0;
  characteristics = 0x60000020;
}

abbrev pub rodata : SectionHeader
rodata = record {
  name = 0x2e ∷ 0x64 ∷ 0 ∷ 0 ∷ 0 ∷ 0 ∷ 0 ∷ 0 ∷ [];
  virtual_size = 0x10;
  virtual_address = 0x3000;
  size_of_raw_data = 0x200;
  pointer_to_raw_data = 0x1800;
  pointer_to_relocations = 0;
  pointer_to_line_numbers = 0;
  number_of_relocations = 0;
  number_of_line_numbers = 0;
  characteristics = 0xc0000040;
}

abbrev pub two_sections : SectionTable
two_sections = text ∷ rodata ∷ []

pub text-IsValid : IsValid text
text-IsValid = record {
  virtual_size_fits = omega arith;
  virtual_address_fits = omega arith;
  size_of_raw_data_fits = omega arith;
  pointer_to_raw_data_fits = omega arith;
  characteristics_fits = omega arith;
}

rodata-IsValid : IsValid rodata
rodata-IsValid = record {
  virtual_size_fits = omega arith;
  virtual_address_fits = omega arith;
  size_of_raw_data_fits = omega arith;
  pointer_to_raw_data_fits = omega arith;
  characteristics_fits = omega arith;
}

pub two_sections-IsValid : All IsValid two_sections
two_sections-IsValid = (text-IsValid, (rodata-IsValid, tt))
