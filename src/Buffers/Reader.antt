-- ===== src/Buffers/Reader.antt =====
-- class input_buffer_stateful_wrapper_ref (buffers/src/input_buffer_stateful_wrapper.cpp): a
-- buffer with a read position.
pub mod Laws
use pe_bliss.Base.{ℕ, Bool, List, ltb, if◌then◌else◌}
use pe_bliss.Base.Words.{add_wrap}
use pe_bliss.Base.Integer.{ℤ}
use pe_bliss.Errors.{generic, buffer_overrun, Result, ok, err, ◌>>=◌, or_throw}
use pe_bliss.Utilities.Math.{add_offset_if_safe}
use pe_bliss.Buffers.Input.{Buffer}
use pe_bliss.Buffers.Input

pub record Reader : Type 0 where
  pub buffer : Buffer
  pub position : ℕ

unfoldable pub size : Reader → ℕ
size r = Input.size r.buffer

-- The result of the read, and the reader after it; a read that throws leaves the position.
unfoldable pub read : Reader → ℕ → Result ((ℕ × List ℕ) × Reader)
read r count = do
  got ← Input.read r.buffer r.position count
  ok (got, record r { position = add_wrap 64 r.position count })

unfoldable pub set_rpos : Reader → ℕ → Result Reader
unfolding size
set_rpos r pos =
    if ltb (size r) pos then err (generic buffer_overrun) else ok (record r { position = pos })

pub advance_rpos : Reader → ℤ → Result Reader
advance_rpos r offset = do
  new_pos ← or_throw (add_offset_if_safe r.position offset) (generic buffer_overrun)
  set_rpos r new_pos
