-- ===== src/Buffers/Copy.antt =====
-- buffers/src/buffer_copy.cpp: bytes go from a reader to an output through a buffer of 512 bytes.
mod Tests
pub mod Laws
use pe_bliss.Base.{ℕ, zero, suc, ◌-◌, List, ◌==◌, if◌then◌else◌, min}
use pe_bliss.Base.Loops.{Run, out_of_fuel, done}
use pe_bliss.Errors.{Result, ok, ◌>>=◌}
use pe_bliss.Buffers.Input.{Buffer}
use pe_bliss.Buffers.Reader.{Reader, read}
use pe_bliss.Buffers.Output.{Output, write}

abbrev pub temp_buffer_size : ℕ
temp_buffer_size = 512

-- A round of the loop; `count` is not zero where `size` is not.
pub copy_round :
    (Reader → Output → ℕ → Result (Run ((Reader × Output) × ℕ)))
    → Reader
    → Output
    → ℕ
    → Result (Run ((Reader × Output) × ℕ))
copy_round rest from to sz = if sz == 0 then ok (done ((from, to), 0)) else (do
  let count = min sz temp_buffer_size
  got ← read from count
  after ← write to got.0.1
  rest got.1 after (sz - count))

pub copy_loop : ℕ → Reader → Output → ℕ → Result (Run ((Reader × Output) × ℕ))
copy_loop zero from to sz = ok out_of_fuel
copy_loop (suc fuel) from to sz = copy_round (copy_loop fuel) from to sz

abbrev pub copied_count : ℕ → Run ((Reader × Output) × ℕ) → Run ((Reader × Output) × ℕ)
copied_count initial_size out_of_fuel = out_of_fuel
copied_count initial_size (done (buffers, left)) = done (buffers, initial_size - left)

-- The reader and the output after the call, and the count that it returns.
pub copy : Reader → Output → ℕ → Result (Run ((Reader × Output) × ℕ))
copy from to sz = copy_loop (suc sz) from to sz >>= λ ended. ok (copied_count sz ended)

pub copy_buffer : Buffer → Output → ℕ → Result (Run ((Reader × Output) × ℕ))
copy_buffer from to sz = copy (record { buffer = from; position = 0 }) to sz
