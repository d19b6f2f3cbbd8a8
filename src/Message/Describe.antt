-- ===== src/Message/Describe.antt =====
-- What is read back of the line that describes a file, by the routines that read lines.
use win16sync.Prelude.{
  ℕ, ◌+◌, ◌/◌, ◌%◌, ◌≤◌, ◌<◌, ◌≡◌, refl, ap, ◌∙◌, Bool, true, not, ◌&&◌, ◌==◌, some, List, [], ◌∷◌,
  ◌++◌, if◌then◌else◌, length, Text, codes, arith, length-append, append-nil, text_eq,
}
use win16sync.Hex.{encode_hex, decode_hex}
use win16sync.Hex.RoundTrip.{
  IsBytes, digits, length-digits, decode_hex-encode_hex, encode_hex_shape,
}
use win16sync.Items.{FileItem}
use win16sync.Line.{
  number_capacity, extract_param, extract_ulong, extract_ulong_dec, extract_ulong_hex,
}
use win16sync.Line.Fields.{fields_text, IsKey, AreFields, field_value, extract_param-value}
use win16sync.Line.Params.{HasNoSpace}
use win16sync.Message.{path_hex_capacity, describe}
use win16sync.Number.{ulong_max, digit_value, strtoul}
use win16sync.Path.{path_capacity, is_empty}
use win16sync.Session.{line_capacity}
use win16sync.Print.{print_dec, print_hex}
use win16sync.Print.RoundTrip.{
  AreDigits, AreDigits-print_dec, AreDigits-print_hex, digit_value-hex, length-print_dec,
  length-print_hex, strtoul-print_dec, strtoul-print_hex,
}

digit_HasNoSpace : (base : ℕ) (s : Text) → AreDigits base s → HasNoSpace s
unfolding digit_value
digit_HasNoSpace base [] h = tt
digit_HasNoSpace base (c ∷ s) ((d, e), h) = (ground arith, digit_HasNoSpace base s h)

AreDigits-digits : (source : Text) → AreDigits 16 (digits source)
AreDigits-digits [] = tt
AreDigits-digits (b ∷ source) = (
  (b / 16 % 16, digit_value-hex (b / 16 % 16) (omega arith)),
  ((b % 16, digit_value-hex (b % 16) (omega arith)), AreDigits-digits source),
)

-- A key by a test.
abbrev is_key : Text → Bool
is_key [] = true
is_key (c ∷ k) = not (c == b' ') && not (c == b'=') && is_key k

key : (k : Text) → is_key k ≡ true → IsKey k
key [] e = tt
key (c ∷ k) e = ((ground arith, ground arith), key k (ground arith))

abbrev item_fields : Text → FileItem → ℕ → List (Text × Text)
item_fields path_hex item known =
    (codes "path", path_hex)
    ∷ (codes "size", print_dec item.size)
    ∷ (codes "crc", print_hex item.crc32)
    ∷ (codes "dos", print_hex item.dos_stamp)
    ∷ (codes "crc_known", print_dec known)
    ∷ []

abbrev known_flag : Bool → ℕ
known_flag crc_disabled = if crc_disabled then 0 else 1

describe-fields :
    (kind path_hex : Text) (item : FileItem) (crc_disabled : Bool)
    → describe kind path_hex item crc_disabled
      ≡ kind ++ fields_text (item_fields path_hex item (known_flag crc_disabled))
unfolding describe
describe-fields kind path_hex item crc_disabled =
    rw (append-nil (print_dec (if crc_disabled then 0 else 1)))

AreFields-item :
    (path : Text) (item : FileItem) (known : ℕ) → AreFields (item_fields (digits path) item known)
AreFields-item path item known =
    let dec = λ (n : ℕ). digit_HasNoSpace 10 (print_dec n) (AreDigits-print_dec n) in
    let hexa = λ (n : ℕ). digit_HasNoSpace 16 (print_hex n) (AreDigits-print_hex n) in
    (
      (key (codes "path") refl, digit_HasNoSpace 16 (digits path) (AreDigits-digits path)),
      (
        (key (codes "size") refl, dec item.size),
        (
          (key (codes "crc") refl, hexa item.crc32),
          (
            (key (codes "dos") refl, hexa item.dos_stamp),
            ((key (codes "crc_known") refl, dec known), tt),
          ),
        ),
      ),
    )

length-describe :
    (kind path_hex : Text) (item : FileItem) (crc_disabled : Bool)
    → length (describe kind path_hex item crc_disabled) ≤ length kind + length path_hex + 80
unfolding describe
length-describe kind path_hex item crc_disabled =
    let known = print_dec (known_flag crc_disabled) in
    let size = print_dec item.size in
    let crc = print_hex item.crc32 in
    let dos = print_hex item.dos_stamp in
    let t4 = codes " dos=" ++ (dos ++ (codes " crc_known=" ++ known)) in
    let t3 = codes " crc=" ++ (crc ++ t4) in
    let t2 = codes " size=" ++ (size ++ t3) in
    omega (
      arith,
      length-append kind (codes " path=" ++ (path_hex ++ t2)),
      length-append path_hex t2,
      length-append size t3,
      length-append crc t4,
      length-append dos (codes " crc_known=" ++ known),
      length-print_dec item.size,
      length-print_hex item.crc32,
      length-print_hex item.dos_stamp,
      length-print_dec (known_flag crc_disabled),
    )

-- A field that is there, and is a number.
ulong-field :
    (base : ℕ) (line key v : Text) (n : ℕ)
    → extract_param line key [] number_capacity ≡ (v, not (is_empty v))
    → 0 < length v
    → strtoul base v ≡ (n, [])
    → extract_ulong base line key 0 ≡ n
ulong-field base line key [] n e filled read = absurd (omega arith)
ulong-field base line key (c ∷ v) n e filled read = rw (e, read)

module _ (c : ℕ) (kind : Text) (item : FileItem) (crc_disabled : Bool) where
  abbrev item_line : Text
  item_line = describe (c ∷ kind) (digits item.path) item crc_disabled

  -- A value of the line that is a field.
  param-item_line :
      (name v : Text) (capacity : ℕ)
      → IsKey (c ∷ kind)
      → is_key name ≡ true
      → field_value name (item_fields (digits item.path) item (known_flag crc_disabled)) ≡ some v
      → length v < capacity
      → extract_param item_line name [] capacity ≡ (v, not (is_empty v))
  param-item_line name v capacity hc named there fits =
      let fields = item_fields (digits item.path) item (known_flag crc_disabled) in
      let read =
        extract_param-value c kind fields name [] capacity hc
          (AreFields-item item.path item (known_flag crc_disabled)) (key name named)
          (λ x e. let same : v ≡ x = cc (there, e) in omega (arith, ap length same, fits))
          (omega arith) in
      ap (λ t. extract_param t name [] capacity)
        (describe-fields (c ∷ kind) (digits item.path) item crc_disabled)
      ∙ rw there at read

  -- The line ITEM or PUT that describes a file: it fits into its array, and the routines that read
  -- lines give back the path, the size, the checksum, the time stamp and whether the checksum is
  -- known. The path consists of bytes and fits into its array, its hexadecimal form too; the
  -- numbers have 32 bits; the kind has at most eight characters, none a space or an equals sign.
  pub describe-read :
      {path_hex : Text}
      → IsKey (c ∷ kind)
      → length kind < 8
      → IsBytes item.path
      → length item.path < path_capacity
      → item.size ≤ ulong_max
      → item.crc32 ≤ ulong_max
      → item.dos_stamp ≤ ulong_max
      → encode_hex item.path path_hex_capacity ≡ some path_hex
      → let line = describe (c ∷ kind) path_hex item crc_disabled in
        (length line < line_capacity)
        × (decode_hex (extract_param line (codes "path") [] path_hex_capacity).0 path_capacity
            ≡ some item.path)
        × (extract_ulong_dec line (codes "size") 0 ≡ item.size)
        × (extract_ulong_hex line (codes "crc") 0 ≡ item.crc32)
        × (extract_ulong_hex line (codes "dos") 0 ≡ item.dos_stamp)
        × (extract_ulong_dec line (codes "crc_known") 0 ≡ (if crc_disabled then 0 else 1))
  unfolding text_eq extract_ulong_dec extract_ulong_hex
  describe-read {path_hex} hc short bytes fits size crc dos e =
      let shape : path_hex ≡ digits item.path = encode_hex_shape item.path path_hex_capacity e in
      let known = known_flag crc_disabled in
      rw shape (
        omega (
          arith,
          length-describe (c ∷ kind) (digits item.path) item crc_disabled,
          length-digits item.path,
        ),
        ap (λ r. decode_hex r.0 path_capacity)
              (param-item_line (codes "path") (digits item.path) path_hex_capacity hc refl refl
                (omega (arith, length-digits item.path)))
            ∙ decode_hex-encode_hex item.path path_hex_capacity path_capacity bytes fits
                (e ∙ ap some shape),
        ulong-field 10 item_line (codes "size") (print_dec item.size) item.size
            (param-item_line (codes "size") (print_dec item.size) number_capacity hc refl refl
              (omega (arith, length-print_dec item.size)))
            (length-print_dec item.size).0 (strtoul-print_dec item.size size),
        ulong-field 16 item_line (codes "crc") (print_hex item.crc32) item.crc32
            (param-item_line (codes "crc") (print_hex item.crc32) number_capacity hc refl refl
              (omega (arith, length-print_hex item.crc32)))
            (omega (arith, length-print_hex item.crc32)) (strtoul-print_hex item.crc32 crc),
        ulong-field 16 item_line (codes "dos") (print_hex item.dos_stamp) item.dos_stamp
            (param-item_line (codes "dos") (print_hex item.dos_stamp) number_capacity hc refl refl
              (omega (arith, length-print_hex item.dos_stamp)))
            (omega (arith, length-print_hex item.dos_stamp)) (strtoul-print_hex item.dos_stamp dos),
        ulong-field 10 item_line (codes "crc_known") (print_dec known) known
            (param-item_line (codes "crc_known") (print_dec known) number_capacity hc refl refl
              (omega (arith, length-print_dec known)))
            (length-print_dec known).0 (strtoul-print_dec known (ground arith)),
      )
