-- ===== src/Crc.antt =====
-- client/proto.c: the CRC-32 of a file.
pub mod Reference
mod Tests
use Prim.Native.Nat.{bit_xor}
use mathlib.Core.Option
use win16sync.Prelude.{
  ℕ, zero, suc, ◌+◌, ◌-◌, ◌/◌, ◌%◌, ◌^◌, not, Option, none, some, List, [], ◌∷◌, ◌==◌,
  if◌then◌else◌, length, take, drop, Text,
}
use win16sync.Path.{is_empty}

abbrev pub polynomial : ℕ
polynomial = 0xEDB88320

-- The inner loop of proto_crc32_step, with `bits` rounds left.
pub bit_loop : ℕ → ℕ → ℕ
bit_loop zero value = value
bit_loop (suc bits) value =
    bit_loop bits (if not (value % 2 == 0) then bit_xor polynomial (value / 2) else value / 2)

unfoldable pub crc32_step : ℕ → Text → ℕ
crc32_step crc [] = crc
crc32_step crc (byte ∷ bytes) =
    crc32_step (bit_xor (crc / 256) (bit_loop 8 (bit_xor crc byte % 256))) bytes

-- `unsigned char buffer[1024]`
abbrev pub buffer_size : ℕ
buffer_size = 1024

-- The loop of proto_file_crc32 over what is still to be read. `fread` gives the next bytes, at
-- most the buffer's size, and none at the end.
pub read_loop : ℕ → Text → ℕ → ℕ
read_loop zero contents crc = crc
read_loop (suc rounds) contents crc =
    let buffer = take buffer_size contents in
    let rest = read_loop rounds (drop buffer_size contents) (crc32_step crc buffer) in
    if is_empty buffer then crc else rest

-- `none` is a file that `fopen` does not open. `~crc` of a 32-bit value.
unfoldable pub file_crc32 : Option Text → Option ℕ
file_crc32 file =
    Option.map (λ contents. 2 ^ 32 - 1 - read_loop (suc (length contents)) contents (2 ^ 32 - 1))
      file
