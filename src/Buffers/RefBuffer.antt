-- ===== src/Buffers/RefBuffer.antt =====
-- class ref_buffer (buffers/include/buffers/ref_buffer.h, buffers/src/ref_buffer.cpp): a buffer
-- that refers to another one, or that has copied it. A copy has the bytes of its container, their
-- absolute and relative offsets and the count of the virtual bytes behind them; a virtual buffer
-- is laid over the container where that is not zero.
pub mod Laws
mod Tests
use pe_bliss.Base.{
  ℕ, ◌-◌, ◌^◌, Bool, true, false, not, Option, none, some, List, [], ltb, ◌==◌, ◌!=◌, if◌then◌else◌,
  length,
}
use pe_bliss.Base.Words.{add_wrap, sub_wrap}
use pe_bliss.Base.Loops.{Run, out_of_fuel, done}
use pe_bliss.Errors.{
  Result, ok, err, ◌>>=◌, ◌>>◌, throw_if, generic, integer_overflow, buffer_overrun, ref_buffer,
  unable_to_read_data, data_is_not_copied,
}
use pe_bliss.Utilities.Math.{is_sum_safe}
use pe_bliss.Buffers.Input.{Buffer, container, absolute_offset, relative_offset}
use pe_bliss.Buffers.Input
use pe_bliss.Buffers.Views.{make_virtual}
use pe_bliss.Buffers.Reader.{Reader, set_rpos}
use pe_bliss.Buffers.Output.{Output}
use pe_bliss.Buffers.Copy.{copy}

pub data RefBuffer : Type 0 where
  copied : List ℕ → ℕ → ℕ → ℕ → RefBuffer
  referenced : Buffer → RefBuffer

-- The default constructor.
unfoldable pub new : RefBuffer
new = copied [] 0 0 0

unfoldable pub contents_of : RefBuffer → Buffer
contents_of (copied bytes absolute relative virt) =
    if virt != 0
    then make_virtual (container bytes absolute relative) virt
    else container bytes absolute relative
contents_of (referenced buf) = buf

-- The copy constructor and the assignment: the copy refers to the buffer of the other.
pub refer_to : RefBuffer → RefBuffer
refer_to other = referenced (contents_of other)

unfoldable pub read_buffer : Buffer → Result RefBuffer
read_buffer buf =
    let physical = Input.physical_size buf in
    do
      bytes ←
          (if physical != 0
            then (do
              got ← Input.read buf 0 physical
              throw_if (got.0 != physical) (ref_buffer unable_to_read_data)
              ok got.1)
            else ok [])
      ok (copied bytes (absolute_offset buf) (relative_offset buf) (Input.virtual_size buf))

unfoldable pub deserialize : Buffer → Bool → Result RefBuffer
deserialize buffer copy_memory = if copy_memory then read_buffer buffer else ok (referenced buffer)

pub is_copied : RefBuffer → Bool
is_copied (copied _ _ _ _) = true
is_copied (referenced _) = false

pub copy_referenced_buffer : RefBuffer → Result RefBuffer
copy_referenced_buffer (copied bytes absolute relative virt) =
    ok (copied bytes absolute relative virt)
copy_referenced_buffer (referenced buf) = read_buffer buf

-- The method of a constant buffer; the other one copies the buffer first.
pub copied_data : RefBuffer → Result (List ℕ)
copied_data (copied bytes _ _ _) = ok bytes
copied_data (referenced _) = err (ref_buffer data_is_not_copied)

pub size : RefBuffer → ℕ
size ref = Input.size (contents_of ref)

pub virtual_size : RefBuffer → ℕ
virtual_size ref = Input.virtual_size (contents_of ref)

pub physical_size : RefBuffer → ℕ
physical_size ref = sub_wrap 64 (size ref) (virtual_size ref)

-- What is left of the result of a copy.
abbrev pub written_count : Run ((Reader × Output) × ℕ) → Run (Output × ℕ)
written_count out_of_fuel = out_of_fuel
written_count (done (buffers, count)) = done (buffers.1, count)

-- The bytes that are written: all, or those of the file.
pub size_to_write : Buffer → Bool → ℕ
size_to_write buf write_virtual_data =
    if write_virtual_data
    then Input.size buf
    else sub_wrap 64 (Input.size buf) (Input.virtual_size buf)

pub serialize : RefBuffer → Output → Bool → Result (Run (Output × ℕ))
serialize ref buffer write_virtual_data =
    let buf = contents_of ref in
    let sz = size_to_write buf write_virtual_data in
    if sz == 0
    then ok (done (buffer, 0))
    else (copy (record { buffer = buf; position = 0 }) buffer sz >>= λ r. ok (written_count r))

-- The size that stands for all that is left.
abbrev pub npos : ℕ
npos = 2 ^ 64 - 1

pub serialize_until : RefBuffer → Output → ℕ → ℕ → Bool → Result (Run (Output × ℕ))
serialize_until ref buffer offset requested write_virtual_data =
    let buf = contents_of ref in
    let ref_size = size_to_write buf write_virtual_data in
    do
      sz ←
          (if requested == npos
            then ok (if ltb ref_size offset then 0 else ref_size - offset)
            else (throw_if (not (is_sum_safe 64 requested offset)) (generic integer_overflow)
                >> ok requested))
      (if sz == 0 then ok (done (buffer, 0)) else (do
        throw_if (ltb ref_size (add_wrap 64 sz offset)) (generic buffer_overrun)
        wrapper ← set_rpos (record { buffer = buf; position = 0 }) offset
        r ← copy wrapper buffer sz
        ok (written_count r)))
