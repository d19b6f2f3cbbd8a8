-- ===== src/Hex/Tests.antt =====
-- Runs of the hexadecimal routines.
use win16sync.Prelude.{◌≡◌, refl, some, none, codes}
use win16sync.Hex.{encode_hex, decode_hex}
use win16sync.Prelude.{◌*◌, ◌<◌, arith}
use win16sync.Hex.RoundTrip.{IsBytes, encode_hex-digits, decode_hex-encode_hex, decode_hex_bounds}

encoded : encode_hex (codes "A/b") 8 ≡ some (codes "412F62")
unfolding encode_hex
encoded = refl

-- Seven bytes would do; the routine asks for one more.
encoded_full : encode_hex (codes "A/b") 7 ≡ none
unfolding encode_hex
encoded_full = refl

decoded : decode_hex (codes "412f62") 4 ≡ some (codes "A/b")
unfolding decode_hex
decoded = refl

decoded_odd : decode_hex (codes "412") 4 ≡ none
unfolding decode_hex
decoded_odd = refl

decoded_bad : decode_hex (codes "4G") 4 ≡ none
unfolding decode_hex
decoded_bad = refl

encode_hex-digits_example : encode_hex (codes "A/b") 8 ≡ some (codes "412F62")
encode_hex-digits_example = encode_hex-digits (codes "A/b") 8 (omega arith)

decode_hex-encode_hex_example : decode_hex (codes "412F62") 4 ≡ some (codes "A/b")
decode_hex-encode_hex_example =
    decode_hex-encode_hex (codes "A/b") 8 4 (omega arith, (omega arith, (omega arith, tt)))
      (omega arith) (encode_hex-digits (codes "A/b") 8 (omega arith))

decode_hex_bounds_example : IsBytes (codes "A/b") × (2 * 3 ≡ 6) × (3 < 4)
decode_hex_bounds_example = decode_hex_bounds (codes "412F62") 4 decode_hex-encode_hex_example
