-- ===== src/Line.antt =====
-- client/proto.c: reading the lines of the protocol, `KIND key=value key=value …`. A line is the
-- text in its buffer, a cursor is the text from the cursor on.
pub mod Params
pub mod Fields
mod Tests
use mathlib.Core.Option
use win16sync.Prelude.{
  ℕ, zero, suc, ◌+◌, ◌-◌, ◌/◌, ◌%◌, Bool, true, false, not, ◌&&◌, ◌||◌, Option, none, some, List,
  [], ◌∷◌, ◌++◌, ltb, ◌==◌, if◌then◌else◌, length, Text,
}
use win16sync.Number.{strtoul}
use win16sync.Path.{is_empty}

-- The loop that proto_line_kind and proto_extract_param copy with: up to a space, the end or the
-- last place of the target.
copy_word : Text → ℕ → ℕ → Text
copy_word [] index capacity = []
copy_word (c ∷ cursor) index capacity =
    let rest = copy_word cursor (index + 1) capacity in
    if ltb (index + 1) capacity && not (c == b' ') then c ∷ rest else []

unfoldable pub line_kind : Text → Text → ℕ → Text
unfolding copy_word
line_kind kind line capacity = if capacity == 0 then kind else copy_word line 0 capacity

-- `while (*cursor == ' ') cursor += 1;`
abbrev pub skip_spaces : Text → Text
skip_spaces [] = []
skip_spaces (c ∷ cursor) = if c == b' ' then skip_spaces cursor else c ∷ cursor

-- `while (*cursor != '\0' && *cursor != ' ') cursor += 1;`
abbrev pub skip_word : Text → Text
skip_word [] = []
skip_word (c ∷ cursor) = if c == b' ' then c ∷ cursor else skip_word cursor

-- `strncmp(cursor, key, key_length) == 0 && cursor[key_length] == '='`: the cursor behind these.
abbrev pub after_key : Text → Text → Option Text
after_key [] [] = none
after_key [] (c ∷ cursor) = if c == b'=' then some cursor else none
after_key (k ∷ key) [] = none
after_key (k ∷ key) (c ∷ cursor) = if k == c then after_key key cursor else none

-- The outer loop of proto_extract_param: where the value of `key` begins. Each round but the last
-- consumes a character, so the rounds are bounded by the length of the line.
unfoldable pub find_value : ℕ → Text → Text → Option Text
find_value zero key cursor = none
find_value (suc rounds) key cursor =
    let word = skip_spaces cursor in
    let rest = find_value rounds key (skip_word word) in
    if is_empty word then none else elim (after_key key word) [ none ↦ rest | some v ↦ some v ]

-- The value that proto_extract_param leaves in its target, and what it returns.
unfoldable pub extract_param : Text → Text → Text → ℕ → Text × Bool
unfolding copy_word find_value
extract_param line key value capacity =
    if capacity == 0 then (value, false) else elim (find_value (suc (length line)) key line) [
      | none ↦ ([], false)
      | some cursor ↦ let copied = copy_word cursor 0 capacity in (copied, not (is_empty copied))
    ]

-- `char value[32]`
abbrev pub number_capacity : ℕ
number_capacity = 32

abbrev pub extract_ulong : ℕ → Text → Text → ℕ → ℕ
extract_ulong base line key default_value =
    let (value, found) = extract_param line key [] number_capacity in
    if found then (strtoul base value).0 else default_value

unfoldable pub extract_ulong_hex : Text → Text → ℕ → ℕ
extract_ulong_hex = extract_ulong 16

unfoldable pub extract_ulong_dec : Text → Text → ℕ → ℕ
extract_ulong_dec = extract_ulong 10
