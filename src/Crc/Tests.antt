-- ===== src/Crc/Tests.antt =====
-- The check value of CRC-32, and a file that does not open.
use win16sync.Prelude.{◌≡◌, refl, some, none, codes}
use win16sync.Crc.{bit_loop, crc32_step, read_loop, file_crc32}
use win16sync.Prelude.{◌^◌, ◌-◌, arith}
use win16sync.Crc.Reference.{crc32_bitwise, file_crc32-crc32_bitwise}

check_value : file_crc32 (some (codes "123456789")) ≡ some 0xCBF43926
unfolding file_crc32 read_loop crc32_step bit_loop
check_value = refl

missing : file_crc32 none ≡ none
unfolding file_crc32
missing = refl

file_crc32-crc32_bitwise_example :
    (file_crc32 (some (codes "AB")) ≡ some (2 ^ 32 - 1 - crc32_bitwise (2 ^ 32 - 1) (codes "AB")))
    × (file_crc32 none ≡ none)
file_crc32-crc32_bitwise_example =
    file_crc32-crc32_bitwise (codes "AB") (omega arith, (omega arith, tt))
