-- ===== src/Version/Dotted.antt =====
-- On versions that are numbers with dots between them, the comparison is the lexicographic one
-- of the numbers, the shorter version being filled up with zeros.
use win16sync.Prelude.{
  ℕ, zero, suc, ◌+◌, ◌*◌, ◌-◌, ◌≤◌, ◌<◌, ◌≡◌, refl, sym, ◌∙◌, true, false, List, [], ◌∷◌, ◌++◌, ltb,
  if◌then◌else◌, length, Text, All, arith, length-append, some,
}
use win16sync.Number.{ulong_max, is_digit, digit_value, strtoul, read_digits}
use win16sync.Number.Laws.{strtoul_digits}
use win16sync.Path.{is_empty}
use win16sync.Version.{
  Comparison, older, same, newer, skip_dot, stops, version_loop, compare_versions,
}
use win16sync.Version.Order.{version_loop-compare_versions}

-- The digits of one number.
abbrev pub IsNumber : Text → Type 0
IsNumber p = (is_empty p ≡ false) × All (λ c. is_digit c ≡ true) p

-- The decimal value behind `value`.
abbrev pub decimal : ℕ → Text → ℕ
decimal value [] = value
decimal value (c ∷ p) = decimal (value * 10 + (c - b'0')) p

-- A number as `strtoul` gives it: at most ULONG_MAX.
abbrev pub component : Text → ℕ
component p = if ltb ulong_max (decimal 0 p) then ulong_max else decimal 0 p

-- A dot in front of each number, and none in front of the first.
abbrev pub tail_text : List Text → Text
tail_text [] = []
tail_text (p ∷ parts) = b'.' ∷ (p ++ tail_text parts)

abbrev pub version_text : List Text → Text
version_text [] = []
version_text (p ∷ parts) = p ++ tail_text parts

abbrev pub compare_numbers : ℕ → ℕ → Comparison → Comparison
compare_numbers a b rest = if ltb a b then older else if ltb b a then newer else rest

abbrev pub compare_parts : List Text → List Text → Comparison
compare_parts [] [] = same
compare_parts (p ∷ ps) [] = compare_numbers (component p) 0 (compare_parts ps [])
compare_parts [] (q ∷ qs) = compare_numbers 0 (component q) (compare_parts [] qs)
compare_parts (p ∷ ps) (q ∷ qs) = compare_numbers (component p) (component q) (compare_parts ps qs)

digit_value-digit : (c : ℕ) → is_digit c ≡ true → digit_value 10 c ≡ some (c - b'0')
unfolding digit_value
digit_value-digit c h = rw h

-- The digits of a number end at the dot behind it, or at the end.
read_digits_part :
    (value : ℕ) (p : Text) (parts : List Text)
    → All (λ c. is_digit c ≡ true) p
    → read_digits 10 value (p ++ tail_text parts) ≡ (decimal value p, tail_text parts)
unfolding read_digits digit_value
read_digits_part value [] [] h = refl
read_digits_part value [] (q ∷ parts) h = refl
read_digits_part value (c ∷ p) parts h =
    let e : digit_value 10 c ≡ some (c - b'0') = digit_value-digit c h.0 in
    rw (e, read_digits) (read_digits_part (value * 10 + (c - b'0')) p parts h.1)

strtoul_part :
    (p : Text) (parts : List Text)
    → IsNumber p
    → strtoul 10 (p ++ tail_text parts) ≡ (component p, tail_text parts)
strtoul_part [] parts h = cc h.0
strtoul_part (c ∷ p) parts h =
    strtoul_digits c (p ++ tail_text parts) h.1.0 ∙ rw (read_digits_part 0 (c ∷ p) parts h.1)

skip_dot_part : (parts : List Text) → skip_dot (tail_text parts) ≡ version_text parts
skip_dot_part [] = refl
skip_dot_part (p ∷ parts) = refl

stops_part : (parts : List Text) → All IsNumber parts → stops (version_text parts) ≡ false
stops_part [] h = refl
stops_part ([] ∷ parts) h = cc (h.0.0)
stops_part ((c ∷ p) ∷ parts) h = rw h.0.1.0

strtoul_nil : strtoul 10 [] ≡ (0, [])
unfolding strtoul
strtoul_nil = refl

is_empty_part : (p : Text) (rest : Text) → IsNumber p → is_empty (p ++ rest) ≡ false
is_empty_part [] rest h = cc h.0
is_empty_part (c ∷ p) rest h = refl

version_loop_parts :
    (rounds : ℕ) (ps qs : List Text)
    → length ps + length qs < rounds
    → All IsNumber ps
    → All IsNumber qs
    → version_loop rounds (version_text ps) (version_text qs) ≡ compare_parts ps qs
unfolding version_loop
version_loop_parts zero ps qs h hp hq = absurd (omega arith)
version_loop_parts (suc rounds) [] [] h hp hq = refl
version_loop_parts (suc rounds) (p ∷ ps) [] h hp hq = rw (
  is_empty_part p (tail_text ps) hp.0,
  strtoul_part p ps hp.0,
  strtoul_nil,
  skip_dot_part ps,
  stops_part ps hp.1,
  version_loop_parts rounds ps [] (omega arith) hp.1 tt,
)
version_loop_parts (suc rounds) [] (q ∷ qs) h hp hq = rw (
  is_empty_part q (tail_text qs) hq.0,
  strtoul_part q qs hq.0,
  strtoul_nil,
  skip_dot_part qs,
  stops_part qs hq.1,
  version_loop_parts rounds [] qs (omega arith) tt hq.1,
)
version_loop_parts (suc rounds) (p ∷ ps) (q ∷ qs) h hp hq = rw (
  is_empty_part p (tail_text ps) hp.0,
  strtoul_part p ps hp.0,
  strtoul_part q qs hq.0,
  skip_dot_part ps,
  skip_dot_part qs,
  stops_part ps hp.1,
  stops_part qs hq.1,
  version_loop_parts rounds ps qs (omega arith) hp.1 hq.1,
)

length_text : (parts : List Text) → All IsNumber parts → length parts ≤ length (version_text parts)
length_text [] h = omega arith
length_text ([] ∷ parts) h = cc h.0.0
length_text ((c ∷ p) ∷ parts) h =
    omega (arith, length-append p (tail_text parts), length_tail parts)
  where
    length_tail : (parts : List Text) → length parts ≤ length (tail_text parts)
    length_tail [] = omega arith
    length_tail (p ∷ parts) = omega (arith, length-append p (tail_text parts), length_tail parts)

-- proto_compare_versions compares dotted versions number by number, missing numbers counting as
-- zero.
pub compare_versions-compare_parts :
    (ps qs : List Text)
    → All IsNumber ps
    → All IsNumber qs
    → compare_versions (version_text ps) (version_text qs) ≡ compare_parts ps qs
compare_versions-compare_parts ps qs hp hq =
    let rounds = suc (length (version_text ps) + length (version_text qs)) in
    sym (version_loop-compare_versions rounds (version_text ps) (version_text qs) (omega arith))
    ∙ version_loop_parts rounds ps qs (omega (arith, length_text ps hp, length_text qs hq)) hp hq
