-- ===== src/Crc/Reference.antt =====
-- The checksum against the definition of CRC-32 by its generator, and independence of the read
-- buffer.
use Prim.Native.Nat.{bit_xor}
use win16sync.Bits.{
  bit_xor_comm, bit_xor-div, bit_xor-mod, bit_xor-zero, bit_xor_left_comm, bit_xor-lt_pow,
  bit_xor_fields,
}
use win16sync.Prelude.{
  ℕ, zero, suc, ◌-◌, ◌*◌, ◌/◌, ◌%◌, ◌^◌, ◌<◌, ◌≡◌, refl, ap, sym, ◌∙◌, none, some, List, [], ◌∷◌,
  ◌+◌, true, false, if◌then◌else◌, ◌++◌, ◌==◌, length, take, drop, Text, arith, All, Bool-cases,
  inl, inr, take-append-drop, length-drop,
}
use win16sync.Crc.{polynomial, bit_loop, crc32_step, read_loop, file_crc32}
use native.Mathlib.Nat.{pow-suc}

abbrev pub IsByte : ℕ → Type 0
IsByte b = b < 256

-- The generator of CRC-32 in IEEE 802.3: the exponents of its terms below 32.
abbrev pub generator_terms : List ℕ
generator_terms = 26 ∷ 23 ∷ 22 ∷ 16 ∷ 12 ∷ 11 ∷ 10 ∷ 8 ∷ 7 ∷ 5 ∷ 4 ∷ 2 ∷ 1 ∷ 0 ∷ []

-- The number with the bit 31 - k for each of the terms x^k, as the register is reflected.
abbrev pub reflected : List ℕ → ℕ
reflected [] = 0
reflected (k ∷ terms) = 2 ^ (31 - k) + reflected terms

-- Multiplication of the reflected register by x, modulo the generator, and by a power of x.
abbrev pub times_x : ℕ → ℕ
times_x value =
    if value % 2 == 1 then bit_xor (value / 2) (reflected generator_terms) else value / 2

abbrev pub times_power : ℕ → ℕ → ℕ
times_power zero value = value
times_power (suc n) value = times_power n (times_x value)

-- The register takes each byte in and is multiplied by x^8.
abbrev pub crc32_bitwise : ℕ → Text → ℕ
crc32_bitwise crc [] = crc
crc32_bitwise crc (byte ∷ bytes) = crc32_bitwise (times_power 8 (bit_xor crc byte)) bytes

-- The loop of proto_crc32_step multiplies by x in each round.
bit_loop-times_power : (n value : ℕ) → bit_loop n value ≡ times_power n value
unfolding bit_loop
bit_loop-times_power zero value = refl
bit_loop-times_power (suc n) value = elim (Bool-cases (value % 2 == 0)) [
  | inl even ↦
      let no_bit : (value % 2 == 1) ≡ false = ground arith in
      rw (even, no_bit) (bit_loop-times_power n (value / 2))
  | inr odd ↦
      let one_bit : (value % 2 == 1) ≡ true = ground arith in
      rw (odd, one_bit)
        (ap (bit_loop n) (bit_xor_comm polynomial (value / 2))
          ∙ bit_loop-times_power n (bit_xor (value / 2) polynomial))
]

-- Bits that are not shifted out in the rounds only move down.
bit_loop-bit_xor :
    (bits high value : ℕ)
    → bit_loop bits (bit_xor (high * 2 ^ bits) value) ≡ bit_xor high (bit_loop bits value)
unfolding bit_loop
bit_loop-bit_xor zero high value = ap (λ h. bit_xor h value) (omega arith)
bit_loop-bit_xor (suc bits) high value =
    let double = ap (λ t. high * t) (pow-suc 2 bits) in
    let low : bit_xor (high * 2 ^ suc bits) value % 2 ≡ value % 2 =
      omega (arith, bit_xor-mod (high * 2 ^ suc bits) value, double) in
    let rest : bit_xor (high * 2 ^ suc bits) value / 2 ≡ bit_xor (high * 2 ^ bits) (value / 2) =
      bit_xor-div (high * 2 ^ suc bits) value
      ∙ ap (λ t. bit_xor t (value / 2)) {x = high * 2 ^ suc bits / 2} (omega (arith, double)) in
    rw (low, rest)
      (elim (Bool-cases (value % 2 == 0)) [
        | inl even ↦ rw even (bit_loop-bit_xor bits high (value / 2))
        | inr odd ↦ rw odd (
            ap (bit_loop bits) (bit_xor_left_comm polynomial (high * 2 ^ bits) (value / 2))
            ∙ bit_loop-bit_xor bits high (bit_xor polynomial (value / 2)))
      ])

-- `n` shifts by one bit.
halves : ℕ → ℕ → ℕ
halves zero a = a
halves (suc n) a = halves n (a / 2)

halves-bit_xor : (n a b : ℕ) → halves n (bit_xor a b) ≡ bit_xor (halves n a) (halves n b)
unfolding halves
halves-bit_xor zero a b = refl
halves-bit_xor (suc n) a b = rw (bit_xor-div a b) (halves-bit_xor n (a / 2) (b / 2))

halves_byte : (a : ℕ) → halves 8 a ≡ a / 256
unfolding halves
halves_byte a = omega arith

-- A byte does not reach the bits above the lowest eight.
high_bits : (crc byte : ℕ) → byte < 256 → bit_xor crc byte / 256 ≡ crc / 256
high_bits crc byte h =
    let zero_high : byte / 256 ≡ 0 = omega arith in
    sym (halves_byte (bit_xor crc byte))
    ∙ halves-bit_xor 8 crc byte
    ∙ rw (halves_byte crc, halves_byte byte, zero_high) (bit_xor-zero (crc / 256))

-- Eight rounds take the high bits down and work on the lowest byte.
bit_loop_byte : (value : ℕ) → bit_loop 8 value ≡ bit_xor (value / 256) (bit_loop 8 (value % 256))
bit_loop_byte value =
    let fields = bit_xor_fields 8 (value / 256) (value % 256) (omega arith) in
    ap (bit_loop 8) {x = value} {y = bit_xor (value / 256 * 2 ^ 8) (value % 256)}
      (omega (arith, fields))
    ∙ bit_loop-bit_xor 8 (value / 256) (value % 256)

-- proto_crc32_step, which works on the lowest byte of the register, multiplies all of it.
pub crc32_step-crc32_bitwise :
    (crc : ℕ) (bytes : Text) → All IsByte bytes → crc32_step crc bytes ≡ crc32_bitwise crc bytes
unfolding crc32_step
crc32_step-crc32_bitwise crc [] h = refl
crc32_step-crc32_bitwise crc (byte ∷ bytes) h =
    let one : bit_xor (crc / 256) (bit_loop 8 (bit_xor crc byte % 256))
        ≡ bit_loop 8 (bit_xor crc byte) =
      sym (
        bit_loop_byte (bit_xor crc byte)
        ∙ ap (λ t. bit_xor t (bit_loop 8 (bit_xor crc byte % 256))) (high_bits crc byte h.0)) in
    rw (one, bit_loop-times_power 8 (bit_xor crc byte))
      (crc32_step-crc32_bitwise (times_power 8 (bit_xor crc byte)) bytes h.1)

crc32_step-append :
    (crc : ℕ) (xs ys : Text) → crc32_step crc (xs ++ ys) ≡ crc32_step (crc32_step crc xs) ys
unfolding crc32_step
crc32_step-append crc [] ys = refl
crc32_step-append crc (x ∷ xs) ys =
    crc32_step-append (bit_xor (crc / 256) (bit_loop 8 (bit_xor crc x % 256))) xs ys

-- The rounds read the whole file, whatever its length.
read_loop-crc32_step :
    (rounds : ℕ) (contents : Text) (crc : ℕ)
    → length contents < rounds
    → read_loop rounds contents crc ≡ crc32_step crc contents
unfolding read_loop
read_loop-crc32_step zero contents crc h = absurd (omega arith)
read_loop-crc32_step (suc rounds) [] crc h = unfold crc32_step in refl
read_loop-crc32_step (suc rounds) (c ∷ contents) crc h =
    let text = c ∷ contents in
    let later =
      read_loop-crc32_step rounds (drop 1024 text) (crc32_step crc (take 1024 text))
        (omega (arith, length-drop 1023 contents)) in
    later
    ∙ sym (crc32_step-append crc (take 1024 text) (drop 1024 text))
    ∙ ap (crc32_step crc) (take-append-drop 1024 text)

-- proto_file_crc32, which reads 1024 bytes at a time, gives of a file of bytes that opens the
-- CRC-32 of IEEE 802.3 of the whole file: the complement of the register that starts with all bits
-- set and, for each byte, takes it in and is multiplied by x^8 modulo the generator. It fails for a
-- file that does not open.
pub file_crc32-crc32_bitwise :
    (contents : Text)
    → All IsByte contents
    → (file_crc32 (some contents) ≡ some (2 ^ 32 - 1 - crc32_bitwise (2 ^ 32 - 1) contents))
      × (file_crc32 none ≡ none)
unfolding file_crc32
file_crc32-crc32_bitwise contents h =
    let read = read_loop-crc32_step (suc (length contents)) contents (2 ^ 32 - 1) (omega arith) in
    (
      ap (λ crc. some (2 ^ 32 - 1 - crc)) (read ∙ crc32_step-crc32_bitwise (2 ^ 32 - 1) contents h),
      refl,
    )

bit_loop-lt : (bits value : ℕ) → value < 2 ^ 32 → bit_loop bits value < 2 ^ 32
unfolding bit_loop
bit_loop-lt zero value h = h
bit_loop-lt (suc bits) value h = elim (Bool-cases (value % 2 == 0)) [
  | inl even ↦ rw even (bit_loop-lt bits (value / 2) (omega arith))
  | inr odd ↦ rw odd (
      bit_loop-lt bits (bit_xor polynomial (value / 2))
        (bit_xor-lt_pow 32 polynomial (value / 2) (omega arith) (omega arith)))
]

-- proto_crc32_step keeps a register of 32 bits within 32 bits, on any bytes.
pub crc32_step-lt :
    (crc : ℕ) (bytes : Text) → crc < 2 ^ 32 → All IsByte bytes → crc32_step crc bytes < 2 ^ 32
unfolding crc32_step
crc32_step-lt crc [] h b = h
crc32_step-lt crc (byte ∷ bytes) h b =
    crc32_step-lt (bit_xor (crc / 256) (bit_loop 8 (bit_xor crc byte % 256))) bytes
      (bit_xor-lt_pow 32 (crc / 256) (bit_loop 8 (bit_xor crc byte % 256)) (omega arith)
        (bit_loop-lt 8 (bit_xor crc byte % 256) (omega arith)))
      b.1
