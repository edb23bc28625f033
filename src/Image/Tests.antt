-- ===== src/Image/Tests.antt =====
-- Conversions of addresses in an executable with two sections.
use pe_bliss.Base.{◌≡◌, ◌↔◌, arith}
use pe_bliss.Errors.{ok}
use pe_bliss.Image.AddressConverter.{rva_to_va, va_to_rva}
use pe_bliss.Image.AddressConverter.Laws.{rva_to_va-va_to_rva_iff}
use pe_bliss.Image.OffsetConverter.{rva_to_file_offset, file_offset_to_rva}
use pe_bliss.Image.OffsetConverter.Laws.{
  IsMapped, rva_to_file_offset_iff, file_offset_to_rva_iff,
  rva_to_file_offset-file_offset_to_rva_iff,
}
use pe_bliss.Image.Samples.{program, program-IsLaidOut}

rva_to_va-va_to_rva_iff_example :
    (rva_to_va 32 0x400000 0x1010 ≡ ok 0x401010) ↔ (va_to_rva 0x400000 0x401010 ≡ ok 0x1010)
rva_to_va-va_to_rva_iff_example =
    rva_to_va-va_to_rva_iff 32 0x400000 0x401010 0x1010 (omega arith) (omega arith)

rva_to_file_offset_iff_example :
    (rva_to_file_offset program 0x1010 ≡ ok 0x410) ↔ IsMapped program 0x1010 0x410
rva_to_file_offset_iff_example =
    rva_to_file_offset_iff program program-IsLaidOut 0x1010 0x410 (omega arith)

file_offset_to_rva_iff_example :
    (file_offset_to_rva program 0x410 ≡ ok 0x1010) ↔ IsMapped program 0x1010 0x410
file_offset_to_rva_iff_example =
    file_offset_to_rva_iff program program-IsLaidOut 0x1010 0x410 (omega arith)

rva_to_file_offset-file_offset_to_rva_iff_example :
    (rva_to_file_offset program 0x1010 ≡ ok 0x410) ↔ (file_offset_to_rva program 0x410 ≡ ok 0x1010)
rva_to_file_offset-file_offset_to_rva_iff_example =
    rva_to_file_offset-file_offset_to_rva_iff program program-IsLaidOut 0x1010 0x410 (omega arith)
      (omega arith)
