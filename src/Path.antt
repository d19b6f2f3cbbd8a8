-- ===== src/Path.antt =====
-- client/proto.c: the path routines. A backslash and a slash both separate; the protocol writes
-- paths with slashes, the local file system with backslashes.
pub mod Split
pub mod Join
mod Tests
use mathlib.Core.Option
use win16sync.Prelude.{
  ℕ, zero, suc, ◌+◌, ◌-◌, Bool, true, false, ◌&&◌, ◌||◌, not, Option, none, some, List, [], ◌∷◌,
  ◌++◌, map, ltb, leb, ◌==◌, if◌then◌else◌, length, get_or, take, drop, Text, codes,
}
use win16sync.Text.{copy_text, append_text}

-- PROTO_LOCAL_PATH_CAPACITY and PROTO_PATH_CAPACITY
abbrev pub local_path_capacity : ℕ
local_path_capacity = 144

abbrev pub path_capacity : ℕ
path_capacity = 144

-- PROTO_TEMP_NAME
abbrev pub temp_name : Text
temp_name = codes "SYNC.$$$"

abbrev pub is_separator : ℕ → Bool
is_separator c = c == b'\\' || c == b'/'

-- Does the text end in a separator? `target[strlen(target) - 1]`, asked of non-empty texts.
abbrev pub ends_in_separator : Text → Bool
ends_in_separator path = is_separator (get_or path (length path - 1) 0)

abbrev pub is_empty : Text → Bool
is_empty [] = true
is_empty (_ ∷ _) = false

-- The loop of proto_get_directory_path, with `index` positions left to look at.
directory_loop : Text → ℕ → Text
directory_loop path zero = path
directory_loop path (suc index) =
    let rest = directory_loop path index in
    if is_separator (get_or path index 0) then take index path else rest

unfoldable pub get_directory_path : Text → Text
unfolding directory_loop
get_directory_path path = directory_loop path (length path)

-- proto_path_name: `name` is the text behind the last separator seen so far.
name_loop : Text → Text → Text
name_loop name [] = name
name_loop name (c ∷ path) = name_loop (if is_separator c then path else name) path

unfoldable pub path_name : Text → Text
unfolding name_loop
path_name path = name_loop path path

unfoldable pub local_join : ℕ → Text → Text → Option Text
local_join capacity left right =
    if capacity == 0 then none else elim (append_text [] left capacity) [
      | none ↦ none
      | some target ↦
          if not (is_empty target) && not (ends_in_separator target)
          then elim (append_text target (b'\\' ∷ []) capacity) [
            | none ↦ none
            | some target' ↦ append_text target' right capacity
          ]
          else append_text target right capacity
    ]

abbrev pub to_local : ℕ → ℕ
to_local c = if c == b'/' then b'\\' else c

-- The last loop of proto_protocol_to_local: what it puts behind `target_length`.
convert_loop : Text → ℕ → ℕ → Option Text
convert_loop [] target_length capacity = some []
convert_loop (c ∷ path) target_length capacity =
    let rest = convert_loop path (target_length + 1) capacity in
    if leb capacity (target_length + 1) then none else Option.map (◌∷◌ (to_local c)) rest

-- `target[strlen(target) - 1] == '\\'`: the trailing backslash that the join left is taken off.
abbrev pub drop_backslash : Text → Text
drop_backslash target =
    if not (is_empty target) && get_or target (length target - 1) 0 == b'\\'
    then take (length target - 1) target
    else target

-- The separator in front of a non-empty protocol path.
abbrev add_backslash : ℕ → Text → Option Text
add_backslash capacity target =
    if not (is_empty target) && not (ends_in_separator target)
    then if leb capacity (length target + 1) then none else some (target ++ b'\\' ∷ [])
    else some target

unfoldable pub protocol_to_local : ℕ → Text → Text → Option Text
unfolding local_join convert_loop
protocol_to_local capacity root_dir path = elim (local_join capacity root_dir []) [
  | none ↦ none
  | some joined ↦
      if is_empty path
      then some (drop_backslash joined)
      else elim (add_backslash capacity (drop_backslash joined)) [
        | none ↦ none
        | some target ↦ Option.map (◌++◌ target) (convert_loop path (length target) capacity)
      ]
]

-- The loop of proto_build_temp_path over the copied path, with `index` positions left.
temp_loop : Text → ℕ → ℕ → Option Text
temp_loop target zero capacity = some (copy_text target temp_name capacity)
temp_loop target (suc index) capacity =
    let rest = temp_loop target index capacity in
    if is_separator (get_or target index 0)
    then append_text (take (index + 1) target) temp_name capacity
    else rest

unfoldable pub build_temp_path : ℕ → Text → Option Text
unfolding temp_loop
build_temp_path capacity local_path =
    if capacity == 0 || is_empty local_path
    then none
    else let target = copy_text [] local_path capacity in temp_loop target (length target) capacity

-- The loop of proto_ensure_parent_dirs: the directories that it asks for, in order.
unfoldable pub parents_loop : Text → ℕ → Text → List Text
parents_loop buffer index [] = []
parents_loop buffer index (c ∷ rest) =
    let later = parents_loop buffer (index + 1) rest in
    if is_separator c && ltb 2 index then take index buffer ∷ later else later

unfoldable pub ensure_parent_dirs : Text → List Text
unfolding parents_loop
ensure_parent_dirs path =
    let buffer = copy_text [] path local_path_capacity in parents_loop buffer 0 buffer
