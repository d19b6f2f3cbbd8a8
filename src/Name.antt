-- ===== src/Name.antt =====
-- client/proto.c: which names the client synchronises, the 8.3 names of FAT.
pub mod Tested
pub mod Is83
mod Tests
use mathlib.Core.Option
use win16sync.Prelude.{
  ℕ, ◌+◌, ◌-◌, Bool, true, false, not, ◌&&◌, ◌||◌, Option, none, some, List, [], ◌∷◌, ◌++◌, ltb,
  leb, ◌==◌, if◌then◌else◌, length, get_or, take, drop, Text, codes, c_text, text_eq,
}
use win16sync.Path.{is_empty}
use win16sync.Text.{copy_text}

abbrev pub contains : ℕ → Text → Bool
contains c [] = false
contains c (d ∷ s) = c == d || contains c s

-- The cases of the `switch` in proto_is_valid_char.
abbrev pub valid_marks : Text
valid_marks = codes "$%'-_@~`!(){}^#&"

unfoldable pub is_valid_char : ℕ → Bool
is_valid_char c = (leb b'A' c && leb c b'Z') || (leb b'0' c && leb c b'9') || contains c valid_marks

abbrev pub to_upper : ℕ → ℕ
to_upper c = if leb b'a' c && leb c b'z' then c - b'a' + b'A' else c

-- The first loop over `upper`; `none` where it finds a byte above 127.
unfoldable pub upper_loop : Text → Option Text
upper_loop [] = some []
upper_loop (c ∷ upper) =
    let rest = upper_loop upper in if leb 128 c then none else Option.map (◌∷◌ (to_upper c)) rest

-- The position of the first dot, or the length where there is none.
abbrev pub first_dot : Text → ℕ
first_dot [] = 0
first_dot (c ∷ upper) = if c == b'.' then 0 else first_dot upper + 1

abbrev pub all_valid : Text → Bool
all_valid [] = true
all_valid (c ∷ s) = is_valid_char c && all_valid s

-- The tests behind the first dot. The array `upper` holds the text, its terminator and `stale`,
-- what the stack held there before. For a file with no dot the second loop starts one place
-- behind the terminator, so it reads `stale` up to the next NUL.
unfoldable pub component_tests : Text → Text → Bool → Bool
component_tests stale upper is_file =
    let dot_index = first_dot upper in
    let extension = drop (dot_index + 1) upper in
    let second_dot = contains b'.' (c_text (drop (dot_index + 1) (upper ++ 0 ∷ stale))) in
    if (if is_file then second_dot else not (dot_index == length upper))
    then false
    else if dot_index == 0 || ltb 8 dot_index
    then false
    else if not (all_valid (take dot_index upper))
    then false
    else if get_or upper dot_index 0 == b'.'
    then (if length extension == 0 || ltb 3 (length extension) then false else all_valid extension)
    else true

-- `char upper[16]`
abbrev pub upper_capacity : ℕ
upper_capacity = 16

unfoldable pub is_valid_component : Text → Text → Bool → Bool
is_valid_component stale name is_file =
    if is_empty name
    then false
    else if text_eq name (codes ".") || text_eq name (codes "..")
    then false
    else elim (upper_loop (copy_text [] name upper_capacity)) [
      | none ↦ false
      | some upper ↦ component_tests stale upper is_file
    ]
