-- ===== src/Dos.antt =====
-- The DOS header with its validator, and the DOS stub (src/dos).
use pe_bliss.Base.{
  ℕ, ◌+◌, ◌-◌, ◌%◌, ◌^◌, Bool, not, ◌||◌, Option, none, some, List, ltb, leb, ◌!=◌, if◌then◌else◌,
}
use pe_bliss.Errors.{
  Error, Result, ok, ◌>>=◌, rethrow, dos_header, unable_to_read_dos_header,
  invalid_dos_header_signature, unaligned_e_lfanew, invalid_e_lfanew, dos_stub,
  unable_to_read_dos_stub,
}
use pe_bliss.Errors.List.{ErrorList, has_errors}
use pe_bliss.Core.OptionalHeader.Validator.{report}
use pe_bliss.Utilities.Math.{is_aligned}
use pe_bliss.Buffers.Reader.{Reader, set_rpos}
use pe_bliss.Buffers.Views.{make_section, without_relative_offset}
use pe_bliss.Buffers.RefBuffer.{RefBuffer}
use pe_bliss.Buffers.RefBuffer
use pe_bliss.Packed.Struct.{deserialize_struct}
use pe_bliss.Packed.Struct.Fields.{field, field_array}

pub record DosHeader : Type 0 where
  pub e_magic : ℕ
  pub e_cblp : ℕ
  pub e_cp : ℕ
  pub e_crlc : ℕ
  pub e_cparhdr : ℕ
  pub e_minalloc : ℕ
  pub e_maxalloc : ℕ
  pub e_ss : ℕ
  pub e_sp : ℕ
  pub e_csum : ℕ
  pub e_ip : ℕ
  pub e_cs : ℕ
  pub e_lfarlc : ℕ
  pub e_ovno : ℕ
  pub e_res : List ℕ
  pub e_oemid : ℕ
  pub e_oeminfo : ℕ
  pub e_res2 : List ℕ
  pub e_lfanew : ℕ

abbrev pub packed_size : ℕ
packed_size = 64

-- 'MZ'
abbrev pub mz_magic_value : ℕ
mz_magic_value = 0x5a4d

abbrev pub min_e_lfanew : ℕ
min_e_lfanew = 4

abbrev pub max_e_lfanew : ℕ
max_e_lfanew = 10485760

unfoldable pub dos_header_of : List ℕ → DosHeader
dos_header_of bytes = record {
  e_magic = field bytes 0 2;
  e_cblp = field bytes 2 2;
  e_cp = field bytes 4 2;
  e_crlc = field bytes 6 2;
  e_cparhdr = field bytes 8 2;
  e_minalloc = field bytes 10 2;
  e_maxalloc = field bytes 12 2;
  e_ss = field bytes 14 2;
  e_sp = field bytes 16 2;
  e_csum = field bytes 18 2;
  e_ip = field bytes 20 2;
  e_cs = field bytes 22 2;
  e_lfarlc = field bytes 24 2;
  e_ovno = field bytes 26 2;
  e_res = field_array bytes 28 2 4;
  e_oemid = field bytes 36 2;
  e_oeminfo = field bytes 38 2;
  e_res2 = field_array bytes 40 2 10;
  e_lfanew = field bytes 60 4;
}

unfoldable pub deserialize_dos_header : Reader → Bool → Result (DosHeader × Reader)
deserialize_dos_header buf allow_virtual_data = do
  got ←
      rethrow (deserialize_struct buf packed_size allow_virtual_data)
        (dos_header unable_to_read_dos_header)
  ok (dos_header_of got.0.1, got.1)

unfoldable pub validate_magic : DosHeader → Option Error
validate_magic header =
    if header.e_magic != mz_magic_value
    then some (dos_header invalid_dos_header_signature)
    else none

unfoldable pub validate_e_lfanew : DosHeader → Option Error
validate_e_lfanew header =
    if not (is_aligned 4 header.e_lfanew)
    then some (dos_header unaligned_e_lfanew)
    else (if ltb header.e_lfanew min_e_lfanew || ltb max_e_lfanew header.e_lfanew
        then some (dos_header invalid_e_lfanew)
        else none)

pub record DosHeaderValidationOptions : Type 0 where
  pub check_magic : Bool
  pub check_e_lfanew : Bool

-- The errors after the call, and its result.
pub validate_dos_header : DosHeader → DosHeaderValidationOptions → ErrorList → ErrorList × Bool
validate_dos_header header options errors =
    let e₁ = report options.check_magic (validate_magic header) errors in
    let e₂ = report options.check_e_lfanew (validate_e_lfanew header) e₁ in
    (e₂, not (has_errors e₂))

-- The stub ends at the PE header, and the reader moves there.
unfoldable pub deserialize_dos_stub : Reader → Bool → ℕ → Result (RefBuffer × Reader)
deserialize_dos_stub buffer copy_memory e_lfanew =
    let buffer_pos = buffer.position in
    let dos_stub_size = if leb e_lfanew buffer_pos then 0 else e_lfanew - buffer_pos in
    rethrow
      (do
        buffer_section ← make_section buffer.buffer buffer_pos dos_stub_size
        stub ← RefBuffer.deserialize (without_relative_offset buffer_section) copy_memory
        moved ← set_rpos buffer ((buffer_pos + dos_stub_size) % 2 ^ 64)
        ok (stub, moved))
      (dos_stub unable_to_read_dos_stub)
