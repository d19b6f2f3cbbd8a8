-- ===== src/Version.antt =====
-- client/proto.c: proto_compare_versions, which decides whether the server's client is newer.
pub mod Order
pub mod Dotted
mod Tests
use win16sync.Prelude.{
  ℕ, zero, suc, ◌+◌, Bool, true, false, not, ◌&&◌, ◌||◌, List, [], ◌∷◌, ltb, ◌==◌, if◌then◌else◌,
  length, Text,
}
use win16sync.Number.{is_digit, strtoul}
use win16sync.Path.{is_empty}

-- The results -1, 0 and 1.
pub data Comparison : Type 0 where
  older same newer : Comparison

abbrev pub skip_dot : Text → Text
skip_dot [] = []
skip_dot (c ∷ s) = if c == b'.' then s else c ∷ s

-- The test that ends the loop, of one cursor.
abbrev pub stops : Text → Bool
stops [] = false
stops (c ∷ s) = not (is_digit c)

-- The loop of proto_compare_versions. Each round but the last consumes a character, so the
-- rounds are bounded by the lengths of both texts.
pub version_loop : ℕ → Text → Text → Comparison
version_loop zero left right = same
version_loop (suc rounds) left right =
    let (left_value, left_end) = strtoul 10 left in
    let (right_value, right_end) = strtoul 10 right in
    let left_cursor = skip_dot left_end in
    let right_cursor = skip_dot right_end in
    let rest = version_loop rounds left_cursor right_cursor in
    if is_empty left && is_empty right
    then same
    else if ltb left_value right_value
    then older
    else if ltb right_value left_value
    then newer
    else if stops left_cursor || stops right_cursor
    then same
    else rest

unfoldable pub compare_versions : Text → Text → Comparison
compare_versions left right = version_loop (suc (length left + length right)) left right
