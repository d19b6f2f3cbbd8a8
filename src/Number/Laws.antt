-- ===== src/Number/Laws.antt =====
-- What `strtoul` gives: a 32-bit value and a shorter text, or 0 and the text that it was given.
use win16sync.Prelude.{
  ℕ, ◌+◌, ◌*◌, ◌≤◌, ◌<◌, ◌≡◌, refl, Bool, true, false, [], ◌∷◌, Text, length, arith, Bool-cases,
  inl, inr, ◌⊎◌, Option-cases,
}
use win16sync.Number.{
  ulong_max, skip_space, is_digit, digit_value, read_digits, starts_with_digit, read_sign,
  skip_prefix, to_ulong, strtoul,
}

skip_space_le : (s : Text) → length (skip_space s) ≤ length s
unfolding skip_space
skip_space_le [] = omega arith
skip_space_le (c ∷ s) = ground (arith, skip_space_le s)

read_sign_le : (s : Text) → length (read_sign s).1 ≤ length s
read_sign_le [] = omega arith
read_sign_le (c ∷ s) = ground arith

skip_prefix_le : (base : ℕ) (s : Text) → length (skip_prefix base s) ≤ length s
skip_prefix_le base (a ∷ b ∷ s) = ground arith
skip_prefix_le base _ = omega arith

read_digits_le : (base value : ℕ) (s : Text) → length (read_digits base value s).1 ≤ length s
unfolding read_digits
read_digits_le base value [] = omega arith
read_digits_le base value (c ∷ s) = elim (Option-cases (digit_value base c)) [
  | inl stop ↦ rw (stop, read_digits) (omega arith)
  | inr (d, more) ↦ rw (more, read_digits) (omega (arith, read_digits_le base (value * base + d) s))
]

read_digits_lt :
    (base value : ℕ) (s : Text)
    → starts_with_digit base s ≡ true
    → length (read_digits base value s).1 < length s
unfolding read_digits
read_digits_lt base value [] h = cc
read_digits_lt base value (c ∷ s) h = elim (Option-cases (digit_value base c)) [
  | inl stop ↦ absurd (ground arith)
  | inr (d, more) ↦ rw (more, read_digits) (omega (arith, read_digits_le base (value * base + d) s))
]

to_ulong-le : (negative : Bool) (value : ℕ) → to_ulong negative value ≤ ulong_max
to_ulong-le true value = ground arith
to_ulong-le false value = ground arith

-- The value fits in 32 bits.
pub strtoul-le : (base : ℕ) (text : Text) → (strtoul base text).0 ≤ ulong_max
unfolding strtoul
strtoul-le base text =
    let (negative, signed) = read_sign (skip_space text) in
    let number = skip_prefix base signed in
    elim (Bool-cases (starts_with_digit base number)) [
      | inl some_digit ↦
          rw (some_digit, strtoul) (to_ulong-le negative (read_digits base 0 number).0)
      | inr no_digit ↦ rw (no_digit, strtoul) (omega arith)
    ]

-- No number is read and the text is given back, or it gets shorter.
pub strtoul_progress :
    (base : ℕ) (text : Text)
    → ((strtoul base text).1 ≡ text) ⊎ (length (strtoul base text).1 < length text)
unfolding strtoul
strtoul_progress base text =
    let number = skip_prefix base (read_sign (skip_space text)).1 in
    elim (Bool-cases (starts_with_digit base number)) [
      | inl some_digit ↦ inr (
          rw (some_digit, strtoul)
            (omega (
              arith,
              read_digits_lt base 0 number some_digit,
              skip_prefix_le base (read_sign (skip_space text)).1,
              read_sign_le (skip_space text),
              skip_space_le text,
            )))
      | inr no_digit ↦ inl (rw (no_digit, strtoul))
    ]

plain_prefix : (c : ℕ) (s : Text) → skip_prefix 10 (c ∷ s) ≡ c ∷ s
plain_prefix c [] = refl
plain_prefix c (d ∷ s) = refl

-- A text that begins with a digit is read from there.
pub strtoul_digits :
    (c : ℕ) (s : Text)
    → is_digit c ≡ true
    → strtoul 10 (c ∷ s)
      ≡ (to_ulong false (read_digits 10 0 (c ∷ s)).0, (read_digits 10 0 (c ∷ s)).1)
unfolding strtoul
strtoul_digits c s h = ground (arith, plain_prefix c s)

digit_starts : (c : ℕ) (s : Text) → is_digit c ≡ true → starts_with_digit 10 (c ∷ s) ≡ true
unfolding digit_value
digit_starts c s h = ground arith

pub strtoul_digits_lt :
    (c : ℕ) (s : Text) → is_digit c ≡ true → length (strtoul 10 (c ∷ s)).1 < length (c ∷ s)
strtoul_digits_lt c s h =
    rw (strtoul_digits c s h) (read_digits_lt 10 0 (c ∷ s) (digit_starts c s h))
