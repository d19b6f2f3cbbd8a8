-- ===== src/Name/Is83.antt =====
-- The 8.3 names, described by their parts, and the test that the program makes.
use win16sync.Prelude.{
  ℕ, zero, suc, ◌≤◌, ◌<◌, ◌≡◌, refl, ap, ◌∙◌, ◌↔◌, Bool, true, false, not, ◌&&◌, leb, some, [], ◌∷◌,
  ◌++◌, map, ◌==◌, length, Text, All, arith, take, Bool-cases, inl, inr, ◌⊎◌, Option-cases, c_text,
  length-append, All-append, take_all, length-take, codes, text_eq,
}
use win16sync.Path.{is_empty}
use win16sync.Text.{copy_text}
use win16sync.Text.Laws.{copy_text-take}
use win16sync.Name.{
  contains, valid_marks, is_valid_char, to_upper, upper_loop, all_valid, component_tests,
  is_valid_component,
}
use win16sync.Name.Tested.{
  HasNoDot, HasNoNul, IsAscii, is_part, upper_loop-map, upper_loop_ascii, component_tests_plain,
  component_tests_dotted,
}

-- The marks that a short name of FAT may have.
abbrev pub name_marks : Text
name_marks = 36 ∷ 37 ∷ 39 ∷ 45 ∷ 95 ∷ 64 ∷ 126 ∷ 96 ∷ 33 ∷ 40 ∷ 41 ∷ 123 ∷ 125 ∷ 94 ∷ 35 ∷ 38 ∷ []

abbrev pub IsOneOf : ℕ → Text → Type 0
IsOneOf c [] = ⊥
IsOneOf c (d ∷ s) = (c ≡ d) ⊎ IsOneOf c s

-- A character of an 8.3 name: a capital or a small letter, a digit or a mark.
pub data IsLegal (c : ℕ) : Type 0 where
  capital : 65 ≤ c → c ≤ 90 → IsLegal c
  small : 97 ≤ c → c ≤ 122 → IsLegal c
  digit : 48 ≤ c → c ≤ 57 → IsLegal c
  mark : IsOneOf c name_marks → IsLegal c

-- From one to `most` legal characters.
pub record IsPart (most : ℕ) (p : Text) : Type 0 where
  pub some_character : 0 < length p
  pub short : length p ≤ most
  pub legal : All IsLegal p

-- A base name of up to eight characters; for a file also one with an extension of up to three.
-- A file name with no dot is taken only if what the stack held behind the copy has no dot.
pub data Is83 (stale : Text) : Text → Bool → Type 0 where
  directory : {name : Text} → IsPart 8 name → Is83 stale name false
  plain :
      {name : Text} → IsPart 8 name → contains b'.' (c_text stale) ≡ false → Is83 stale name true
  extended :
      {name : Text} (base extension : Text)
      → name ≡ base ++ b'.' ∷ extension
      → IsPart 8 base
      → IsPart 3 extension
      → Is83 stale name true

contains-IsOneOf : (c : ℕ) (s : Text) → (contains c s ≡ true) ↔ IsOneOf c s
contains-IsOneOf c [] = ((λ h. cc h), (λ h. absurd h))
contains-IsOneOf c (d ∷ s) = (
  (λ h. elim (Bool-cases (c == d)) [
    | inl same ↦ inl (ground arith)
    | inr other ↦ inr ((contains-IsOneOf c s).0 (rw other at h))
  ]),
  (λ h. elim h [
    | inl same ↦ rw same (ground arith)
    | inr behind ↦ rw ((contains-IsOneOf c s).1 behind) (ground arith)
  ]),
)

all_valid_iff :
    (p : Text)
    → (all_valid (map to_upper p) ≡ true) ↔ All (λ c. is_valid_char (to_upper c) ≡ true) p
all_valid_iff [] = ((λ _. tt), (λ _. refl))
all_valid_iff (c ∷ p) = (
  (λ h. (ground arith, (all_valid_iff p).0 (ground arith))),
  (λ h. rw (h.0, (all_valid_iff p).1 h.1)),
)

-- The program, which tests the capital of a character, takes just the legal ones.
valid-IsLegal : (c : ℕ) → is_valid_char (to_upper c) ≡ true → IsLegal c
unfolding is_valid_char
valid-IsLegal c h = elim (Bool-cases (leb 97 c && leb c 122)) [
  | inl low ↦ IsLegal.small (ground arith) (ground arith)
  | inr other ↦ elim (Bool-cases (leb 65 c && leb c 90)) [
    | inl high ↦ IsLegal.capital (ground arith) (ground arith)
    | inr no_letter ↦ elim (Bool-cases (leb 48 c && leb c 57)) [
      | inl number ↦ IsLegal.digit (ground arith) (ground arith)
      | inr no_digit ↦
          IsLegal.mark ((contains-IsOneOf c valid_marks).0 (rw (other, no_letter, no_digit) at h))
    ]
  ]
]

IsLegal-valid : (c : ℕ) → IsLegal c → is_valid_char (to_upper c) ≡ true
unfolding is_valid_char
IsLegal-valid c (capital low high) = ground arith
IsLegal-valid c (small low high) = ground arith
IsLegal-valid c (digit low high) = ground arith
IsLegal-valid c (mark found) = elim (Bool-cases (leb 97 c && leb c 122)) [
  | inl low ↦ ground arith
  | inr other ↦ rw (other, (contains-IsOneOf c valid_marks).1 found) (ground arith)
]

All-IsLegal : (p : Text) → All (λ c. is_valid_char (to_upper c) ≡ true) p → All IsLegal p
All-IsLegal [] h = tt
All-IsLegal (c ∷ p) h = (valid-IsLegal c h.0, All-IsLegal p h.1)

pub All-valid : (p : Text) → All IsLegal p → All (λ c. is_valid_char (to_upper c) ≡ true) p
All-valid [] h = tt
All-valid (c ∷ p) h = (IsLegal-valid c h.0, All-valid p h.1)

is_part_iff : (most : ℕ) (p : Text) → (is_part most p ≡ true) ↔ IsPart most p
is_part_iff most p = (
  (λ h. record {
    some_character = ground arith;
    short = ground arith;
    legal = All-IsLegal p ((all_valid_iff p).0 (ground arith));
  }),
  (λ h. rw ((all_valid_iff p).1 (All-valid p h.legal)) (ground arith)),
)

-- A valid character is ASCII and no dot.
valid_char_bounds : (c : ℕ) → is_valid_char (to_upper c) ≡ true → (c < 128) × ((c == b'.') ≡ false)
unfolding is_valid_char
valid_char_bounds c h = ground arith

IsPart-IsAscii : (p : Text) → All (λ c. is_valid_char (to_upper c) ≡ true) p → IsAscii p
IsPart-IsAscii [] h = tt
IsPart-IsAscii (c ∷ p) h = ((valid_char_bounds c h.0).0, IsPart-IsAscii p h.1)

IsPart-HasNoDot : (p : Text) → All (λ c. is_valid_char (to_upper c) ≡ true) p → HasNoDot p
IsPart-HasNoDot [] h = tt
IsPart-HasNoDot (c ∷ p) h = ((valid_char_bounds c h.0).1, IsPart-HasNoDot p h.1)

contains_none : (p : Text) → HasNoDot p → contains b'.' p ≡ false
contains_none [] h = refl
contains_none (c ∷ p) h = ground (arith, contains_none p h.1)

-- The first dot of a text, if there is one.
dot_cases : (s : Text) → HasNoDot s ⊎ ((b : Text) × (e : Text) × (s ≡ b ++ b'.' ∷ e) × HasNoDot b)
dot_cases [] = inl tt
dot_cases (c ∷ s) = elim (Bool-cases (c == b'.')) [
  | inl dot ↦ inr ([], s, ground arith, tt)
  | inr other ↦ elim (dot_cases s) [
    | inl h ↦ inl (other, h)
    | inr (b, e, shape, h) ↦ inr (c ∷ b, e, ap (◌∷◌ c) shape, (other, h))
  ]
]

pub Is83-short : (stale s : Text) (is_file : Bool) → Is83 stale s is_file → length s ≤ 12
Is83-short stale s is_file (directory p) = omega arith
Is83-short stale s is_file (plain p clean) = omega arith
Is83-short stale s is_file (extended base extension shape p q) =
    rw shape (omega (arith, length-append base (b'.' ∷ extension)))

HasNoNul-back : (b : Text) (c : ℕ) (e : Text) → HasNoNul (b ++ c ∷ e) → HasNoNul e
HasNoNul-back [] c e h = h.1
HasNoNul-back (d ∷ b) c e h = HasNoNul-back b c e h.1

component_tests-Is83 :
    (stale s : Text) (is_file : Bool)
    → HasNoNul s
    → component_tests stale (map to_upper s) is_file ≡ true
    → Is83 stale s is_file
component_tests-Is83 stale s is_file h t = elim (dot_cases s) [
  | inl no_dot ↦ without_dot is_file (rw (component_tests_plain stale s is_file no_dot) at t)
  | inr (b, e, shape, no_dot) ↦
      let n : HasNoNul e = HasNoNul-back b b'.' e (rw shape at h) in
      let t' = rw shape at t in
      with_dot is_file b e shape (rw (component_tests_dotted stale b e is_file no_dot n) at t')
]
  where
    without_dot :
        (f : Bool)
        → (not (f && contains b'.' (c_text stale)) && is_part 8 s) ≡ true
        → Is83 stale s f
    without_dot true t = plain ((is_part_iff 8 s).0 (ground arith)) (ground arith)
    without_dot false t = directory ((is_part_iff 8 s).0 t)

    with_dot :
        (f : Bool) (b e : Text)
        → s ≡ b ++ b'.' ∷ e
        → (f && not (contains b'.' e) && is_part 8 b && is_part 3 e) ≡ true
        → Is83 stale s f
    with_dot true b e shape t =
        extended b e shape ((is_part_iff 8 b).0 (ground arith)) ((is_part_iff 3 e).0 (ground arith))
    with_dot false b e shape t = cc

Is83-component_tests :
    (stale s : Text) (is_file : Bool)
    → HasNoNul s
    → Is83 stale s is_file
    → IsAscii s × (component_tests stale (map to_upper s) is_file ≡ true)
Is83-component_tests stale s is_file n (directory p) = (
  IsPart-IsAscii s (All-valid s p.legal),
  rw (component_tests_plain stale s false (IsPart-HasNoDot s (All-valid s p.legal)))
      ((is_part_iff 8 s).1 p),
)
Is83-component_tests stale s is_file n (plain p clean) = (
  IsPart-IsAscii s (All-valid s p.legal),
  rw (component_tests_plain stale s true (IsPart-HasNoDot s (All-valid s p.legal)), clean)
      ((is_part_iff 8 s).1 p),
)
Is83-component_tests stale s is_file n (extended b e shape p q) = rw shape (
  All-append (λ c. c < 128) b (b'.' ∷ e) (IsPart-IsAscii b (All-valid b p.legal))
      (omega arith, IsPart-IsAscii e (All-valid e q.legal)),
  rw (
    component_tests_dotted stale b e true (IsPart-HasNoDot b (All-valid b p.legal))
        (HasNoNul-back b b'.' e (rw shape at n)),
    contains_none e (IsPart-HasNoDot e (All-valid e q.legal)),
    (is_part_iff 8 b).1 p,
    (is_part_iff 3 e).1 q,
  ),
)

-- What the tests of the whole name, before the copy, leave to be tested.
component_cases :
    (stale name : Text) (is_file : Bool)
    → is_valid_component stale name is_file ≡ true
    → (upper : Text) × (upper_loop (copy_text [] name 16) ≡ some upper)
      × (component_tests stale upper is_file ≡ true)
unfolding is_valid_component
component_cases stale name is_file h = elim (Option-cases (upper_loop (copy_text [] name 16))) [
  | inl bad ↦ absurd (ground arith)
  | inr (upper, good) ↦ (upper, good, ground arith)
]

HasNoNul-take : (n : ℕ) (s : Text) → HasNoNul s → HasNoNul (take n s)
HasNoNul-take zero s h = tt
HasNoNul-take (suc n) [] h = tt
HasNoNul-take (suc n) (c ∷ s) h = (h.0, HasNoNul-take n s h.1)

part_first :
    {most : ℕ} (p : Text)
    → IsPart most p
    → (c : ℕ) × (t : Text) × (p ≡ c ∷ t) × ((c == b'.') ≡ false)
part_first [] h = absurd (omega arith)
part_first (c ∷ t) h = (c, t, refl, (valid_char_bounds c (IsLegal-valid c h.legal.0)).1)

pub Is83-first :
    {stale : Text} {is_file : Bool} (name : Text)
    → Is83 stale name is_file
    → (c : ℕ) × (t : Text) × (name ≡ c ∷ t) × ((c == b'.') ≡ false)
Is83-first name (directory p) = part_first name p
Is83-first name (plain p clean) = part_first name p
Is83-first name (extended base extension shape p q) =
    let (c, t, begins, no_dot) = part_first base p in
    (c, t ++ b'.' ∷ extension, shape ∙ ap (λ p. p ++ b'.' ∷ extension) begins, no_dot)

not_dots :
    (name : Text) (c : ℕ) (t : Text)
    → name ≡ c ∷ t
    → (c == b'.') ≡ false
    → (is_empty name ≡ false)
      × (text_eq name (codes ".") ≡ false)
      × (text_eq name (codes "..") ≡ false)
unfolding text_eq
not_dots name c t shape no_dot = rw shape (refl, rw no_dot, rw no_dot)

-- Of the names with no NUL, proto_is_valid_component takes exactly the 8.3 names, whose parts are
-- of letters, digits and the sixteen marks of FAT, although it looks at a copy of fifteen
-- characters only; but a file name with no dot it takes only if what the stack holds behind the
-- copy, up to a NUL, has no dot.
pub is_valid_component-Is83 :
    (stale name : Text) (is_file : Bool)
    → HasNoNul name
    → (is_valid_component stale name is_file ≡ true) ↔ Is83 stale name is_file
unfolding is_valid_component
is_valid_component-Is83 stale name is_file n = (
  (λ h.
      let (upper, good, tested) = component_cases stale name is_file h in
      let copied = copy_text-take [] name 16 (omega arith) in
      let (ascii, shape) = upper_loop-map (take 15 name) (rw copied at good) in
      let is83 =
        component_tests-Is83 stale (take 15 name) is_file (HasNoNul-take 15 name n)
          (rw shape at tested) in
      let short = Is83-short stale (take 15 name) is_file is83 in
      rw (take_all 15 name (omega (arith, length-take 15 name))) at is83),
  (λ h.
      let (c, t, shape, no_dot) = Is83-first name h in
      let short = Is83-short stale name is_file h in
      let (ascii, tested) = Is83-component_tests stale name is_file n h in
      let copied = copy_text-take [] name 16 (omega arith) ∙ take_all 15 name (omega arith) in
      let (filled, one, two) = not_dots name c t shape no_dot in
      rw (filled, one, two, copied, upper_loop_ascii name ascii, is_valid_component) tested),
)
