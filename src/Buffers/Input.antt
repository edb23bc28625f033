-- ===== src/Buffers/Input.antt =====
-- The classes behind input_buffer_interface. `container` stands for input_container_buffer and
-- input_memory_buffer, which hold bytes; `section` for input_buffer_section and `virtual` for
-- input_virtual_buffer, which view another buffer. The last two numbers of each are its absolute
-- and relative offsets. input_stream_buffer, which reads a file, is not modelled.
-- A read returns the count of physical bytes with the bytes written to `data`.
pub mod Contents
pub mod Slice
pub mod Read
use pe_bliss.Base.{
  ℕ, ◌+◌, ◌-◌, Bool, not, ◌||◌, List, [], ◌++◌, ltb, ◌==◌, if◌then◌else◌, length, take, drop,
  replicate, min,
}
use pe_bliss.Base.Words.{add_wrap, sub_wrap}
use pe_bliss.Errors.{
  generic, integer_overflow, buffer_overrun, Result, ok, ◌>>=◌, ◌>>◌, throw_if, or_throw,
}
use pe_bliss.Utilities.Math.{is_sum_safe, add_if_safe}

pub data Buffer : Type 0 where
  container : List ℕ → ℕ → ℕ → Buffer
  section : Buffer → ℕ → ℕ → ℕ → ℕ → ℕ → Buffer
  virtual : Buffer → ℕ → ℕ → ℕ → Buffer

unfoldable pub size : Buffer → ℕ
size (container bytes _ _) = length bytes
size (section _ _ sz _ _ _) = sz
size (virtual buf additional _ _) = add_wrap 64 (size buf) additional

unfoldable pub virtual_size : Buffer → ℕ
virtual_size (container _ _ _) = 0
virtual_size (section _ _ _ virt _ _) = virt
virtual_size (virtual buf additional _ _) = add_wrap 64 (virtual_size buf) additional

unfoldable pub absolute_offset : Buffer → ℕ
absolute_offset (container _ absolute _) = absolute
absolute_offset (section _ _ _ _ absolute _) = absolute
absolute_offset (virtual _ _ absolute _) = absolute

unfoldable pub relative_offset : Buffer → ℕ
relative_offset (container _ _ relative) = relative
relative_offset (section _ _ _ _ _ relative) = relative
relative_offset (virtual _ _ _ relative) = relative

unfoldable pub physical_size : Buffer → ℕ
physical_size buf = sub_wrap 64 (size buf) (virtual_size buf)

-- `!is_sum_safe(pos, count) || pos + count > size`
unfoldable pub overruns : ℕ → ℕ → ℕ → Bool
overruns pos count size = not (is_sum_safe 64 pos count) || ltb size (add_wrap 64 pos count)

unfoldable pub read_container : List ℕ → ℕ → ℕ → Result (ℕ × List ℕ)
read_container bytes pos count = do
  throw_if (overruns pos count (length bytes)) (generic buffer_overrun)
  ok (count, take count (drop pos bytes))

-- What `read` of a virtual buffer adds to the bytes that the buffer below it gave.
pub pad : ℕ → ℕ → ℕ × List ℕ → ℕ × List ℕ
pad count expected (real, bytes) = (real, bytes ++ replicate (count - real - (expected - real)) 0)

unfoldable pub read : Buffer → ℕ → ℕ → Result (ℕ × List ℕ)
read (container bytes _ _) pos count =
    if count == 0 then ok (0, []) else read_container bytes pos count
read (section buf offset sz _ _ _) pos count =
    let below = read buf (add_wrap 64 pos offset) count in
    if count == 0
    then ok (0, [])
    else (throw_if (overruns pos count sz) (generic buffer_overrun) >> below)
read (virtual buf additional _ _) pos count =
    let sz = size buf in
    let expected = min count (sz - pos) in
    let below = read buf pos expected >>= λ r. ok (pad count expected r) in
    if count == 0 then ok (0, []) else (do
      throw_if (not (is_sum_safe 64 additional sz)) (generic integer_overflow)
      throw_if (overruns pos count (add_wrap 64 sz additional)) (generic buffer_overrun)
      if ltb pos sz then below else ok (0, replicate count 0))
