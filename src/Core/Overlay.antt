-- ===== src/Core/Overlay.antt =====
-- class overlay (src/core/overlay.cpp): the bytes of the file behind the data of the sections.
use pe_bliss.Base.{ℕ, ◌-◌, Bool, Option, none, some, leb, max, if◌then◌else◌}
use pe_bliss.Errors.{Result, ok, ◌>>=◌, rethrow, overlay, unable_to_read_overlay}
use pe_bliss.Utilities.SafeUint.{plus}
use pe_bliss.Buffers.Reader.{Reader, size}
use pe_bliss.Buffers.Views.{reduce}
use pe_bliss.Buffers.RefBuffer.{RefBuffer}
use pe_bliss.Buffers.RefBuffer

-- `none` leaves the overlay as it is.
unfoldable pub deserialize_overlay : ℕ → ℕ → ℕ → Reader → Bool → Result (Option RefBuffer)
deserialize_overlay section_raw_data_last_offset size_of_headers initial_buffer_pos buffer
      eager_copy =
    rethrow
      (do
        section_end ← plus 64 0 section_raw_data_last_offset
        last_image_offset ← plus 64 (max section_end size_of_headers) initial_buffer_pos
        (if leb (size buffer) last_image_offset then ok none else (do
          view ← reduce buffer.buffer last_image_offset (size buffer - last_image_offset)
          copy ← RefBuffer.deserialize view eager_copy
          ok (some copy))))
      (overlay unable_to_read_overlay)
