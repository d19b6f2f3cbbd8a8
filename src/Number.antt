-- ===== src/Number.antt =====
-- The C library's `strtoul`, as far as client/proto.c uses it: bases ten and sixteen, with the
-- value and the text behind the number. A number above ULONG_MAX gives ULONG_MAX; a minus sign
-- negates modulo 2^32; where no digit is read the value is 0 and the text is the whole input.
pub mod Laws
use mathlib.Core.Option
use win16sync.Prelude.{
  ℕ, ◌+◌, ◌-◌, ◌*◌, ◌%◌, ◌^◌, Bool, true, false, ◌&&◌, ◌||◌, Option, none, some, List, [], ◌∷◌, ltb,
  leb, ◌==◌, if◌then◌else◌, Text,
}

abbrev pub ulong_max : ℕ
ulong_max = 2 ^ 32 - 1

-- `isspace`
abbrev pub is_space : ℕ → Bool
is_space c = c == b' ' || leb 9 c && leb c 13

unfoldable pub skip_space : Text → Text
skip_space [] = []
skip_space (c ∷ s) = if is_space c then skip_space s else c ∷ s

abbrev pub is_digit : ℕ → Bool
is_digit c = leb b'0' c && leb c b'9'

-- The value of a digit in base ten or sixteen.
unfoldable pub digit_value : ℕ → ℕ → Option ℕ
digit_value base c =
    if is_digit c
    then some (c - b'0')
    else if base == 16 && leb b'A' c && leb c b'F'
    then some (c - b'A' + 10)
    else if base == 16 && leb b'a' c && leb c b'f'
    then some (c - b'a' + 10)
    else none

-- The digits in front of a text: their value behind `value`, and the text behind them.
unfoldable pub read_digits : ℕ → ℕ → Text → ℕ × Text
read_digits base value [] = (value, [])
read_digits base value (c ∷ s) = elim (digit_value base c) [
  | none ↦ (value, c ∷ s)
  | some d ↦ read_digits base (value * base + d) s
]

abbrev pub starts_with_digit : ℕ → Text → Bool
starts_with_digit base [] = false
starts_with_digit base (c ∷ s) = elim (digit_value base c) [ none ↦ false | some _ ↦ true ]

-- A sign in front, with whether it is a minus.
abbrev pub read_sign : Text → Bool × Text
read_sign [] = (false, [])
read_sign (c ∷ s) =
    if c == b'-' then (true, s) else if c == b'+' then (false, s) else (false, c ∷ s)

-- `0x` is passed over in base sixteen where a digit follows.
abbrev pub skip_prefix : ℕ → Text → Text
skip_prefix base (a ∷ b ∷ s) =
    if base == 16 && a == b'0' && (b == b'x' || b == b'X') && starts_with_digit base s
    then s
    else a ∷ b ∷ s
skip_prefix base s = s

abbrev pub to_ulong : Bool → ℕ → ℕ
to_ulong negative value =
    if ltb ulong_max value then ulong_max else if negative then (2 ^ 32 - value) % 2 ^ 32 else value

unfoldable pub strtoul : ℕ → Text → ℕ × Text
unfolding skip_space read_digits digit_value
strtoul base text =
    let (negative, signed) = read_sign (skip_space text) in
    let number = skip_prefix base signed in
    let (value, rest) = read_digits base 0 number in
    if starts_with_digit base number then (to_ulong negative value, rest) else (0, text)
