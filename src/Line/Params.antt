-- ===== src/Line/Params.antt =====
-- The parameters of a line as its words name them.
use mathlib.Core.Option
use win16sync.Prelude.{
  ℕ, zero, suc, ◌+◌, ◌-◌, ◌≤◌, ◌<◌, ◌≡◌, refl, ap, sym, ◌∙◌, false, not, Option, none, some, List,
  [], ◌∷◌, ltb, ◌==◌, if◌then◌else◌, length, Text, All, arith, take, take_nil, Bool-cases, inl, inr,
  ◌⊎◌, Option-cases,
}
use win16sync.Line.{
  copy_word, line_kind, skip_spaces, skip_word, after_key, find_value, extract_param,
}
use win16sync.Path.{is_empty}

-- The text up to the next space.
abbrev pub word : Text → Text
word [] = []
word (c ∷ s) = if c == b' ' then [] else c ∷ word s

copy_word-take :
    (cursor : Text) (index capacity : ℕ)
    → copy_word cursor index capacity ≡ take (capacity - (index + 1)) (word cursor)
unfolding copy_word
copy_word-take [] index capacity = sym (take_nil (capacity - (index + 1)))
copy_word-take (c ∷ cursor) index capacity = elim (Bool-cases (ltb (index + 1) capacity)) [
  | inl more ↦
      let e : capacity - (index + 1) ≡ suc (capacity - (index + 1 + 1)) = ground arith in
      rw (more, e) (ground (arith, copy_word-take cursor (index + 1) capacity))
  | inr full ↦ let e : capacity - (index + 1) ≡ 0 = ground arith in rw (full, e)
]

-- proto_line_kind gives the first word, cut to what leaves room for the terminator.
pub line_kind-word :
    (kind line : Text) (capacity : ℕ)
    → 0 < capacity
    → line_kind kind line capacity ≡ take (capacity - 1) (word line)
unfolding line_kind
line_kind-word kind line capacity h = ground (arith, copy_word-take line 0 capacity)

-- The words of a line: its longest pieces without a space.
abbrev pub cons_word : Text → List Text → List Text
cons_word [] ws = ws
cons_word (c ∷ w) ws = (c ∷ w) ∷ ws

abbrev pub split_words : Text → Text × List Text
split_words [] = ([], [])
split_words (c ∷ s) =
    let (w, ws) = split_words s in if c == b' ' then ([], cons_word w ws) else (c ∷ w, ws)

abbrev pub words : Text → List Text
words s = let (w, ws) = split_words s in cons_word w ws

-- The value of the first word that is `key`, an equals sign and a value.
abbrev pub first_value : Text → List Text → Option Text
first_value key [] = none
first_value key (w ∷ ws) = elim (after_key key w) [ none ↦ first_value key ws | some v ↦ some v ]

abbrev pub HasNoSpace : Text → Type 0
HasNoSpace = All (λ c. (c == b' ') ≡ false)

pub words-skip_spaces : (s : Text) → words (skip_spaces s) ≡ words s
words-skip_spaces [] = refl
words-skip_spaces (c ∷ s) = ground (arith, words-skip_spaces s)

split_words-word : (s : Text) → (split_words s).0 ≡ word s
split_words-word [] = refl
split_words-word (c ∷ s) = ground (arith, split_words-word s)

split_words-skip_word : (s : Text) → (split_words s).1 ≡ words (skip_word s)
split_words-skip_word [] = refl
split_words-skip_word (c ∷ s) = ground (arith, split_words-skip_word s)

after_key-word :
    (key s : Text) → HasNoSpace key → after_key key (word s) ≡ Option.map word (after_key key s)
after_key-word [] [] h = refl
after_key-word [] (c ∷ s) h = ground arith
after_key-word (k ∷ key) [] h = refl
after_key-word (k ∷ key) (c ∷ s) h = ground (arith, after_key-word key s h.1)

pub length-skip_spaces : (s : Text) → length (skip_spaces s) ≤ length s
length-skip_spaces [] = omega arith
length-skip_spaces (c ∷ s) = ground (arith, length-skip_spaces s)

length-skip_word : (s : Text) → length (skip_word s) ≤ length s
length-skip_word [] = omega arith
length-skip_word (c ∷ s) = ground (arith, length-skip_word s)

-- What stands behind the spaces is empty or begins with another character.
pub skip_spaces_cases :
    (s : Text)
    → (skip_spaces s ≡ [])
      ⊎ ((c : ℕ) × (t : Text) × (skip_spaces s ≡ c ∷ t) × ((c == b' ') ≡ false))
skip_spaces_cases [] = inl refl
skip_spaces_cases (c ∷ s) = elim (Bool-cases (c == b' ')) [
  | inl space ↦ rw space (skip_spaces_cases s)
  | inr other ↦ inr (c, s, rw other, other)
]

-- A cursor on a word: the word and those behind it.
pub words_first :
    (w : Text) (c : ℕ) (t : Text)
    → w ≡ c ∷ t
    → (c == b' ') ≡ false
    → (words w ≡ word w ∷ words (skip_word w))
      × (is_empty w ≡ false)
      × (length (skip_word w) < length w)
words_first w c t e other =
    rw (e, other)
      (
        ap (λ v. (c ∷ v) ∷ (split_words t).1) (split_words-word t)
            ∙ ap (λ vs. (c ∷ word t) ∷ vs) (split_words-skip_word t),
        refl,
        omega (arith, length-skip_word t),
      )

find_value_lem :
    (rounds : ℕ) (key s : Text)
    → HasNoSpace key
    → length s < rounds
    → Option.map word (find_value rounds key s) ≡ first_value key (words s)
unfolding find_value
find_value_lem zero key s h fuel = absurd (omega arith)
find_value_lem (suc rounds) key s h fuel = elim (skip_spaces_cases s) [
  | inl end ↦ rw (← words-skip_spaces s, end)
  | inr (c, t, begins, other) ↦
      let w = skip_spaces s in
      let (first, filled, shorter) = words_first w c t begins other in
      let value = after_key-word key w h in
      rw (← words-skip_spaces s, first, filled)
        (elim (Option-cases (after_key key w)) [
          | inl other_key ↦
              rw (other_key, find_value)
                (find_value_lem rounds key (skip_word w) h (omega (arith, length-skip_spaces s))
                  ∙ rw (value, other_key, first_value))
          | inr (v, found) ↦ rw (found, find_value) (rw (value, found, first_value))
        ])
]

-- proto_extract_param gives the value of the first word that has the key, cut to what leaves room
-- for the terminator, and reports whether it is not empty; without such a word it gives nothing.
pub extract_param-words :
    (line key value : Text) (capacity : ℕ)
    → HasNoSpace key
    → 0 < capacity
    → extract_param line key value capacity ≡ elim (first_value key (words line)) [
      | none ↦ ([], false)
      | some v ↦ (take (capacity - 1) v, not (is_empty (take (capacity - 1) v)))
    ]
unfolding extract_param
extract_param-words line key value capacity h room =
    let found = find_value_lem (suc (length line)) key line h (omega arith) in
    rw (← found) (elim (Option-cases (find_value (suc (length line)) key line)) [
      | inl missing ↦ rw missing (ground arith)
      | inr (cursor, there) ↦ rw there (ground (arith, copy_word-take cursor 0 capacity))
    ])
