-- ===== src/Hex/RoundTrip.antt =====
-- Encoding and decoding together.
use win16sync.Prelude.{
  ℕ, ◌+◌, ◌*◌, ◌/◌, ◌%◌, ◌<◌, ◌≡◌, refl, ◌||◌, some, none, arith, [], ◌∷◌, ltb, ◌==◌, if◌then◌else◌,
  get_or, length, Text, All, ◌⊎◌, inl, inr, Option-cases,
}
use win16sync.Hex.{hex, encode_loop, encode_hex, hex_value, decode_loop, decode_hex}
use win16sync.Hex.Digits.{hex_value-hex, hex_value-lt}

-- The two digits of each byte.
abbrev pub digits : Text → Text
digits [] = []
digits (b ∷ source) = get_or hex (b / 16 % 16) 0 ∷ get_or hex (b % 16) 0 ∷ digits source

abbrev pub IsBytes : Text → Type 0
IsBytes = All (λ b. b < 256)

pub length-digits : (source : Text) → length (digits source) ≡ 2 * length source
length-digits [] = refl
length-digits (b ∷ source) = omega (arith, length-digits source)

encode_loop_lem :
    (source : Text) (index capacity : ℕ)
    → encode_loop source index capacity ≡ (
        if length source == 0 || ltb (index + 2 * length source + 1) capacity
        then some (digits source)
        else none)
unfolding encode_loop
encode_loop_lem [] index capacity = refl
encode_loop_lem (b ∷ source) index capacity =
    ground (arith, encode_loop_lem source (index + 2) capacity)

-- proto_encode_hex writes two digits for each byte, exactly when one byte more than these and
-- their terminator fits, or nothing is to be encoded.
pub encode_hex-digits :
    (source : Text) (capacity : ℕ)
    → 0 < capacity
    → encode_hex source capacity ≡ (
        if length source == 0 || ltb (2 * length source + 1) capacity
        then some (digits source)
        else none)
unfolding encode_hex
encode_hex-digits source capacity h = ground (arith, encode_loop_lem source 0 capacity)

decode_loop-digits :
    (source : Text) (index capacity : ℕ)
    → IsBytes source
    → decode_loop (digits source) index capacity
      ≡ (if length source == 0 || ltb (index + length source) capacity then some source else none)
unfolding decode_loop
decode_loop-digits [] index capacity h = refl
decode_loop-digits (b ∷ source) index capacity h =
    rw (hex_value-hex (b / 16 % 16) (omega arith), hex_value-hex (b % 16) (omega arith))
      (ground (arith, decode_loop-digits source (index + 1) capacity h.1))

pub encode_hex_shape :
    (source : Text) (capacity : ℕ) {encoded : Text}
    → encode_hex source capacity ≡ some encoded
    → encoded ≡ digits source
unfolding encode_hex
encode_hex_shape source capacity e = ground (arith, encode_loop_lem source 0 capacity)

-- A path of bytes that the encoder accepts is what the decoder reads back, where it has room for
-- it with the terminator.
pub decode_hex-encode_hex :
    (source : Text) (encode_capacity decode_capacity : ℕ) {encoded : Text}
    → IsBytes source
    → length source < decode_capacity
    → encode_hex source encode_capacity ≡ some encoded
    → decode_hex encoded decode_capacity ≡ some source
unfolding decode_hex
decode_hex-encode_hex source m n {encoded} h fits e =
    let shown : encoded ≡ digits source = encode_hex_shape source m e in
    rw shown (ground (arith, length-digits source, decode_loop-digits source 0 n h))

-- A successful round of the loop: both digits are digits, and the rest succeeds.
decode_loop_cons :
    (high low : ℕ) (source : Text) (index capacity : ℕ) (out : Text)
    → decode_loop (high ∷ low ∷ source) index capacity ≡ some out
    → (h : ℕ) × (l : ℕ) × (rest : Text) × (hex_value high ≡ some h)
      × (hex_value low ≡ some l)
      × (decode_loop source (index + 1) capacity ≡ some rest)
      × (index + 1 < capacity)
      × (out ≡ (h * 16 + l) ∷ rest)
unfolding decode_loop
decode_loop_cons high low source index capacity out e = elim (Option-cases (hex_value high)) [
  | inl bad ↦ absurd (ground arith)
  | inr (h, eh) ↦ elim (Option-cases (hex_value low)) [
    | inl bad ↦ absurd (ground arith)
    | inr (l, el) ↦ elim (Option-cases (decode_loop source (index + 1) capacity)) [
      | inl bad ↦ absurd (ground arith)
      | inr (rest, more) ↦ (h, l, rest, eh, el, more, ground arith, ground arith)
    ]
  ]
]

decode_loop_bounds :
    (source : Text) (index capacity : ℕ) {out : Text}
    → length source % 2 ≡ 0
    → decode_loop source index capacity ≡ some out
    → IsBytes out
      × (2 * length out ≡ length source)
      × ((length source ≡ 0) ⊎ (index + length out < capacity))
unfolding decode_loop
decode_loop_bounds [] index capacity even e = ground arith
decode_loop_bounds (c ∷ []) index capacity even e = absurd (omega arith)
decode_loop_bounds (high ∷ low ∷ source) index capacity {out} even e =
    let (h, l, rest, eh, el, more, room, shape) =
      decode_loop_cons high low source index capacity out e in
    let hh = hex_value-lt high h eh in
    let hl = hex_value-lt low l el in
    let later = decode_loop_bounds source (index + 1) capacity (omega arith) more in
    rw shape ((omega arith, later.0), omega arith, omega arith)

-- What proto_decode_hex gives are bytes, one for every two digits, with room for the terminator.
pub decode_hex_bounds :
    (source : Text) (capacity : ℕ) {out : Text}
    → decode_hex source capacity ≡ some out
    → IsBytes out × (2 * length out ≡ length source) × (length out < capacity)
unfolding decode_hex
decode_hex_bounds source capacity {out} e =
    ground (arith, decode_loop_bounds source 0 capacity {out = out})
