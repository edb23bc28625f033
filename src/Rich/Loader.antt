-- ===== src/Rich/Loader.antt =====
-- src/rich/rich_header_loader.cpp: the load of a rich header, if there is one.
pub mod Laws
use pe_bliss.Base.{ℕ, ◌+◌, ◌%◌, ◌^◌, Option, none, some, [], ◌==◌, if◌then◌else◌}
use pe_bliss.Errors.{Result, ok, ◌>>=◌}
use pe_bliss.Buffers.Input.{absolute_offset}
use pe_bliss.Buffers.Reader.{Reader, set_rpos}
use pe_bliss.Rich.{RichHeader}
use pe_bliss.Rich.Utils.{find_checksum, decode_checksum, find_dans_signature, decode_compids}

-- What follows a checksum that has been found.
pub load_at : Reader → ℕ → Result (Option RichHeader × Reader)
load_at buffer checksum_pos = do
  at ← set_rpos buffer checksum_pos
  checksum ← decode_checksum at
  dans ← find_dans_signature checksum.1 checksum.0
  moved ← set_rpos dans.1 dans.0
  compids ← decode_compids moved checksum_pos checksum.0 []
  ok (
    some (record {
      checksum = checksum.0;
      dans_relative_offset = dans.0;
      dans_absolute_offset = (dans.0 + absolute_offset buffer.buffer) % 2 ^ 64;
      compids = compids.0;
    }),
    compids.1,
  )

pub load : Reader → Result (Option RichHeader × Reader)
load buffer = do
  found ← find_checksum buffer
  (if found.0 == 0 then ok (none, found.1) else load_at found.1 found.0)
