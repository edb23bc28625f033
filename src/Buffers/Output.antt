-- ===== src/Buffers/Output.antt =====
-- The classes behind output_buffer_interface: `memory` stands for output_memory_buffer, which grows
-- (buffers/src/output_memory_buffer.cpp), and `memory_ref` for output_memory_ref_buffer, which
-- fills a given range (buffers/src/output_memory_ref_buffer.cpp). Each has its bytes and its write
-- position. output_stream_buffer, which writes a file, is not modelled. The count of a write is
-- the length of its bytes.
pub mod Laws
use pe_bliss.Base.{
  ℕ, ◌+◌, ◌-◌, ◌^◌, List, ◌++◌, ltb, leb, if◌then◌else◌, length, take, drop, replicate,
}
use pe_bliss.Base.Words.{add_wrap, sub_wrap}
use pe_bliss.Base.Integer.{ℤ}
use pe_bliss.Errors.{generic, buffer_overrun, Result, ok, err, ◌>>=◌, or_throw}
use pe_bliss.Utilities.Math.{add_offset_if_safe}

pub data Output : Type 0 where
  memory : List ℕ → ℕ → Output
  memory_ref : List ℕ → ℕ → Output

pub size : Output → ℕ
size (memory bytes pos) = length bytes
size (memory_ref bytes pos) = length bytes

pub wpos : Output → ℕ
wpos (memory bytes pos) = pos
wpos (memory_ref bytes pos) = pos

-- `std::copy` and `std::memcpy` to a position.
abbrev pub overwrite : ℕ → List ℕ → List ℕ → List ℕ
overwrite pos data_bytes bytes =
    take pos bytes ++ (data_bytes ++ drop (pos + length data_bytes) bytes)

-- `if (n > data_.size()) data_.resize(n);`
abbrev pub grow : List ℕ → ℕ → List ℕ
grow bytes n = if ltb (length bytes) n then bytes ++ replicate (n - length bytes) 0 else bytes

pub write : Output → List ℕ → Result Output
write (memory bytes pos) data_bytes =
    let end = add_wrap 64 pos (length data_bytes) in
    ok (memory (overwrite pos data_bytes (grow bytes end)) end)
write (memory_ref bytes pos) data_bytes =
    if ltb (sub_wrap 64 (length bytes) pos) (length data_bytes)
    then err (generic buffer_overrun)
    else ok (memory_ref (overwrite pos data_bytes bytes) (add_wrap 64 pos (length data_bytes)))

-- `max_size` of a vector of bytes, the greatest difference of pointers.
abbrev pub max_size : ℕ
max_size = 2 ^ 63 - 1

unfoldable pub set_wpos : Output → ℕ → Result Output
set_wpos (memory bytes pos) new_pos =
    if leb max_size new_pos
    then err (generic buffer_overrun)
    else ok (memory (grow bytes new_pos) new_pos)
set_wpos (memory_ref bytes pos) new_pos =
    if ltb (length bytes) new_pos
    then err (generic buffer_overrun)
    else ok (memory_ref bytes new_pos)

pub advance_wpos : Output → ℤ → Result Output
advance_wpos out offset = do
  new_pos ← or_throw (add_offset_if_safe (wpos out) offset) (generic buffer_overrun)
  set_wpos out new_pos
