-- ===== src/Hex.antt =====
-- client/proto.c: the hexadecimal form in which paths travel. Both routines give the bytes that
-- they put in front of the terminator, and `none` where they return 0.
pub mod Digits
pub mod RoundTrip
mod Tests
use mathlib.Core.Option
use win16sync.Prelude.{
  ℕ, ◌+◌, ◌-◌, ◌*◌, ◌/◌, ◌%◌, ◌&&◌, Option, none, some, List, [], ◌∷◌, leb, ◌==◌, if◌then◌else◌,
  length, get_or, Text, codes,
}

-- `static const char hex[]`
abbrev pub hex : Text
hex = codes "0123456789ABCDEF"

-- The loop of proto_encode_hex: what it puts at `target_index` and behind.
encode_loop : Text → ℕ → ℕ → Option Text
encode_loop [] target_index capacity = some []
encode_loop (current ∷ source) target_index capacity =
    let rest = encode_loop source (target_index + 2) capacity in
    if leb capacity (target_index + 3)
    then none
    else Option.map (λ out. get_or hex (current / 16 % 16) 0 ∷ get_or hex (current % 16) 0 ∷ out)
        rest

unfoldable pub encode_hex : Text → ℕ → Option Text
unfolding encode_loop
encode_hex source capacity = if capacity == 0 then none else encode_loop source 0 capacity

-- `none` for the -1 of proto_hex_value.
unfoldable pub hex_value : ℕ → Option ℕ
hex_value c =
    if leb b'0' c && leb c b'9'
    then some (c - b'0')
    else if leb b'A' c && leb c b'F'
    then some (c - b'A' + 10)
    else if leb b'a' c && leb c b'f'
    then some (c - b'a' + 10)
    else none

-- `(char)((high << 4) | low)`, both being digits.
abbrev pub join_digits : Option ℕ → Option ℕ → Option ℕ
join_digits (some high) (some low) = some (high * 16 + low)
join_digits _ _ = none

abbrev pub cons_byte : Option ℕ → Option Text → Option Text
cons_byte (some byte) rest = Option.map (◌∷◌ byte) rest
cons_byte none rest = none

-- The loop of proto_decode_hex on a source of even length.
decode_loop : Text → ℕ → ℕ → Option Text
decode_loop (high ∷ low ∷ source) out_index capacity =
    let rest = decode_loop source (out_index + 1) capacity in
    if leb capacity (out_index + 1)
    then none
    else cons_byte (join_digits (hex_value high) (hex_value low)) rest
decode_loop _ out_index capacity = some []

unfoldable pub decode_hex : Text → ℕ → Option Text
unfolding decode_loop hex_value
decode_hex source capacity =
    if capacity == 0
    then none
    else if length source % 2 == 0
    then decode_loop source 0 capacity
    else none
