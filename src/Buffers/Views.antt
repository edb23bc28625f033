-- ===== src/Buffers/Views.antt =====
-- The constructors of input_buffer_section and input_virtual_buffer, `reduce` of a section and
-- the two functions `buffers::reduce` (buffers/src/input_buffer_section.cpp,
-- buffers/src/input_virtual_buffer.cpp).
pub mod Laws
use pe_bliss.Base.{ℕ, ◌+◌, ◌-◌, Bool, not, ltb, if◌then◌else◌, min}
use pe_bliss.Base.Words.{add_wrap}
use pe_bliss.Errors.{
  generic, integer_overflow, buffer_overrun, Result, ok, err, ◌>>=◌, ◌>>◌, throw_if, or_throw,
}
use pe_bliss.Utilities.Math.{is_sum_safe, add_if_safe}
use pe_bliss.Buffers.Input.{
  Buffer, container, section, virtual, size, physical_size, absolute_offset, relative_offset,
}

-- The virtual bytes at the end of a section, which ends at `last_offset` of its buffer.
abbrev pub virtual_part : ℕ → ℕ → ℕ → ℕ
virtual_part last_offset src_physical_size sz =
    if ltb src_physical_size last_offset then min (last_offset - src_physical_size) sz else 0

unfoldable pub make_section : Buffer → ℕ → ℕ → Result Buffer
make_section buf offset sz = do
  max_offset ← or_throw (add_if_safe 64 offset sz) (generic integer_overflow)
  throw_if (ltb (size buf) max_offset) (generic buffer_overrun)
  absolute ← or_throw (add_if_safe 64 offset (absolute_offset buf)) (generic integer_overflow)
  relative ← or_throw (add_if_safe 64 offset (relative_offset buf)) (generic integer_overflow)
  let virt = virtual_part (add_wrap 64 offset sz) (physical_size buf) sz
  ok (section buf offset sz virt absolute relative)

-- The method `reduce` of a section at `own_offset`, of `own_size` bytes.
pub reduce_section : Buffer → ℕ → ℕ → ℕ → ℕ → Result Buffer
reduce_section buf own_offset own_size offset sz = do
  total_offset ← or_throw (add_if_safe 64 own_offset offset) (generic integer_overflow)
  throw_if (not (is_sum_safe 64 total_offset sz)) (generic integer_overflow)
  throw_if (ltb (add_wrap 64 own_offset own_size) (add_wrap 64 total_offset sz))
      (generic buffer_overrun)
  make_section buf total_offset sz

unfoldable pub reduce : Buffer → ℕ → ℕ → Result Buffer
reduce buf offset sz = make_section buf offset sz

pub reduce_from : Buffer → ℕ → Result Buffer
reduce_from buf offset =
    let sz = size buf in
    if ltb sz offset then err (generic buffer_overrun) else reduce buf offset (sz - offset)

unfoldable pub make_virtual : Buffer → ℕ → Buffer
make_virtual buf additional = virtual buf additional (absolute_offset buf) (relative_offset buf)

-- `set_relative_offset(0)`
unfoldable pub without_relative_offset : Buffer → Buffer
without_relative_offset (container bytes absolute relative) = container bytes absolute 0
without_relative_offset (section buf offset sz virt absolute relative) =
    section buf offset sz virt absolute 0
without_relative_offset (virtual buf additional absolute relative) =
    virtual buf additional absolute 0
