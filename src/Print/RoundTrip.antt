-- ===== src/Print/RoundTrip.antt =====
-- `strtoul` reads back what is printed.
use win16sync.Prelude.{
  ℕ, zero, suc, ◌+◌, ◌*◌, ◌/◌, ◌%◌, ◌^◌, ◌≤◌, ◌<◌, ◌≡◌, refl, ap, ◌∙◌, true, false, some, [], ◌∷◌,
  ◌==◌, get_or, length, Text, All, arith, Bool-cases, inl, inr,
}
use win16sync.Hex.{hex, hex_value}
use win16sync.Hex.Digits.{hex_value-hex}
use win16sync.Number.{
  ulong_max, skip_space, digit_value, read_digits, starts_with_digit, read_sign, skip_prefix,
  strtoul,
}
use win16sync.Print.{dec_loop, print_dec, hex_loop, print_hex}

abbrev pub AreDigits : ℕ → Text → Type 0
AreDigits base = All (λ c. (d : ℕ) × (digit_value base c ≡ some d))

digit_value-dec : (n : ℕ) → n < 10 → digit_value 10 (b'0' + n) ≡ some n
unfolding digit_value
digit_value-dec n h = ground arith

pub digit_value-hex : (n : ℕ) → n < 16 → digit_value 16 (get_or hex n 0) ≡ some n
unfolding digit_value hex_value
digit_value-hex n h = hex_value-hex n h

read_digit :
    (base value c d : ℕ) (s : Text)
    → digit_value base c ≡ some d
    → read_digits base value (c ∷ s) ≡ read_digits base (value * base + d) s
unfolding read_digits
read_digit base value c d s e = rw (e, read_digits)

-- A printed number is read behind nothing as the number itself.
read_digits-dec_loop :
    (rounds n : ℕ) (behind : Text)
    → n < 10 ^ suc rounds
    → read_digits 10 0 (dec_loop (suc rounds) n behind) ≡ read_digits 10 n behind
unfolding dec_loop
read_digits-dec_loop zero n behind h =
    let small : n / 10 == 0 ≡ true = ground arith in
    rw (small, dec_loop)
      (read_digit 10 0 (b'0' + n % 10) (n % 10) behind (digit_value-dec (n % 10) (omega arith))
        ∙ ap (λ k. read_digits 10 k behind) {x = 0 * 10 + n % 10} (omega arith))
read_digits-dec_loop (suc rounds) n behind h =
    let digit = digit_value-dec (n % 10) (omega arith) in
    elim (Bool-cases (n / 10 == 0)) [
      | inl small ↦
          rw (small, dec_loop)
            (read_digit 10 0 (b'0' + n % 10) (n % 10) behind digit
              ∙ ap (λ k. read_digits 10 k behind) {x = 0 * 10 + n % 10} (ground arith))
      | inr large ↦ rw (large) (
          read_digits-dec_loop rounds (n / 10) ((b'0' + n % 10) ∷ behind) (omega arith)
          ∙ read_digit 10 (n / 10) (b'0' + n % 10) (n % 10) behind digit
          ∙ ap (λ k. read_digits 10 k behind) {x = n / 10 * 10 + n % 10} (omega arith))
    ]

read_digits-hex_loop :
    (digits n : ℕ) (behind : Text)
    → n < 16 ^ digits
    → read_digits 16 0 (hex_loop digits n behind) ≡ read_digits 16 n behind
unfolding hex_loop
read_digits-hex_loop zero n behind h = ap (λ k. read_digits 16 k behind) {x = 0} (omega arith)
read_digits-hex_loop (suc digits) n behind h =
    read_digits-hex_loop digits (n / 16) (get_or hex (n % 16) 0 ∷ behind) (omega arith)
    ∙ read_digit 16 (n / 16) (get_or hex (n % 16) 0) (n % 16) behind
        (digit_value-hex (n % 16) (omega arith))
    ∙ ap (λ k. read_digits 16 k behind) {x = n / 16 * 16 + n % 16} (omega arith)

AreDigits-dec_loop :
    (rounds n : ℕ) (behind : Text) → AreDigits 10 behind → AreDigits 10 (dec_loop rounds n behind)
unfolding dec_loop
AreDigits-dec_loop zero n behind h = h
AreDigits-dec_loop (suc rounds) n behind h =
    let digits : AreDigits 10 ((b'0' + n % 10) ∷ behind) =
      ((n % 10, digit_value-dec (n % 10) (omega arith)), h) in
    elim (Bool-cases (n / 10 == 0)) [
      | inl small ↦ rw (small, dec_loop) digits
      | inr large ↦
          rw (large, dec_loop)
            (AreDigits-dec_loop rounds (n / 10) ((b'0' + n % 10) ∷ behind) digits)
    ]

AreDigits-hex_loop :
    (digits n : ℕ) (behind : Text) → AreDigits 16 behind → AreDigits 16 (hex_loop digits n behind)
unfolding hex_loop
AreDigits-hex_loop zero n behind h = h
AreDigits-hex_loop (suc digits) n behind h =
    AreDigits-hex_loop digits (n / 16) (get_or hex (n % 16) 0 ∷ behind)
      ((n % 16, digit_value-hex (n % 16) (omega arith)), h)

-- What stands in front of a number does not look like a digit.
digit_front :
    (base c d : ℕ) (s : Text)
    → digit_value base c ≡ some d
    → (skip_space (c ∷ s) ≡ c ∷ s) × (read_sign (c ∷ s) ≡ (false, c ∷ s))
unfolding skip_space digit_value
digit_front base c d s digit = (ground arith, ground arith)

skip_prefix-digits : (base c : ℕ) (s : Text) → AreDigits base s → skip_prefix base (c ∷ s) ≡ c ∷ s
unfolding digit_value
skip_prefix-digits base c [] h = refl
skip_prefix-digits base c (b ∷ s) ((d, digit), h) = ground arith

-- A text of digits is read whole.
strtoul-digits :
    (base c d value : ℕ) (s : Text)
    → digit_value base c ≡ some d
    → AreDigits base s
    → read_digits base 0 (c ∷ s) ≡ (value, [])
    → value ≤ ulong_max
    → strtoul base (c ∷ s) ≡ (value, [])
unfolding strtoul
strtoul-digits base c d value s digit more e small =
    let (space, sign) = digit_front base c d s digit in
    let prefix = skip_prefix-digits base c s more in
    rw (space, sign, prefix, e, starts_with_digit) (rw digit (ground arith))

strtoul-text :
    (base value : ℕ) (s : Text)
    → AreDigits base s
    → 0 < length s
    → read_digits base 0 s ≡ (value, [])
    → value ≤ ulong_max
    → strtoul base s ≡ (value, [])
strtoul-text base value [] h filled e small = absurd (omega arith)
strtoul-text base value (c ∷ s) ((d, digit), h) filled e small =
    strtoul-digits base c d value s digit h e small

length-dec_loop :
    (rounds n : ℕ) (behind : Text)
    → length behind ≤ length (dec_loop rounds n behind)
      × (length (dec_loop rounds n behind) ≤ rounds + length behind)
unfolding dec_loop
length-dec_loop zero n behind = (omega arith, omega arith)
length-dec_loop (suc rounds) n behind =
    ground (arith, length-dec_loop rounds (n / 10) ((b'0' + n % 10) ∷ behind))

length-hex_loop :
    (digits n : ℕ) (behind : Text) → length (hex_loop digits n behind) ≡ digits + length behind
unfolding hex_loop
length-hex_loop zero n behind = omega arith
length-hex_loop (suc digits) n behind =
    omega (arith, length-hex_loop digits (n / 16) (get_or hex (n % 16) 0 ∷ behind))

pub length-print_dec : (n : ℕ) → (0 < length (print_dec n)) × (length (print_dec n) ≤ 10)
unfolding print_dec dec_loop
length-print_dec n = ground (arith, length-dec_loop 9 (n / 10) ((b'0' + n % 10) ∷ []))

pub length-print_hex : (n : ℕ) → length (print_hex n) ≡ 8
unfolding print_hex
length-print_hex n = length-hex_loop 8 n []

pub AreDigits-print_dec : (n : ℕ) → AreDigits 10 (print_dec n)
unfolding print_dec
AreDigits-print_dec n = AreDigits-dec_loop 10 n [] tt

pub AreDigits-print_hex : (n : ℕ) → AreDigits 16 (print_hex n)
unfolding print_hex
AreDigits-print_hex n = AreDigits-hex_loop 8 n [] tt

pub strtoul-print_dec : (n : ℕ) → n ≤ ulong_max → strtoul 10 (print_dec n) ≡ (n, [])
unfolding read_digits print_dec
strtoul-print_dec n h =
    strtoul-text 10 n (print_dec n) (AreDigits-print_dec n) (length-print_dec n).0
      (read_digits-dec_loop 9 n [] (omega arith)) h

pub strtoul-print_hex : (n : ℕ) → n ≤ ulong_max → strtoul 16 (print_hex n) ≡ (n, [])
unfolding read_digits print_hex
strtoul-print_hex n h =
    strtoul-text 16 n (print_hex n) (AreDigits-print_hex n) (omega (arith, length-print_hex n))
      (read_digits-hex_loop 8 n [] (omega arith)) h
