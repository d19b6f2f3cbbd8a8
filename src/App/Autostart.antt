-- ===== src/App/Autostart.antt =====
-- client/main.c: the two lines of WIN.INI from which Windows starts programs,
-- app_remove_autostart_entry, app_append_token and app_apply_autostart.
pub mod Words
use win16sync.Prelude.{
  ℕ, zero, suc, ◌+◌, ◌&&◌, ◌||◌, Bool, true, false, [], ◌∷◌, ◌++◌, leb, ◌==◌, if◌then◌else◌, length,
  Text, codes, text_eq,
}
use win16sync.Line.{skip_spaces}
use win16sync.Path.{is_empty}
use win16sync.Text.{copy_text}

-- APP_PATH_CAPACITY, and the size of a line
abbrev pub app_path_capacity : ℕ
app_path_capacity = 160

abbrev pub profile_capacity : ℕ
profile_capacity = 512

-- What app_append_token puts behind the line and its space.
unfoldable pub append_piece : Text → ℕ → Text → Text
append_piece line capacity token =
    if leb capacity (length line + length token + 1) then line else line ++ token

unfoldable pub append_token : Text → ℕ → Text → Text
append_token line capacity token =
    if is_empty line
    then append_piece line capacity token
    else if leb capacity (length line + 2)
    then line
    else append_piece (line ++ codes " ") capacity token

-- The loop that fills `token`, which has `room` bytes left, and the line behind it.
abbrev pub take_token : ℕ → Text → Text × Text
take_token zero line = ([], line)
take_token (suc room) [] = ([], [])
take_token (suc room) (c ∷ line) =
    let (token, rest) = take_token room line in
    if c == b' ' then ([], c ∷ line) else (c ∷ token, rest)

abbrev pub is_min : Text → Bool
is_min token = text_eq token (codes "/MIN") || text_eq token (codes "/min")

abbrev pub keep_token : Bool → Text → Text → Text → Text
keep_token skip_next_min exe_path token result =
    if text_eq token exe_path || skip_next_min && is_min token
    then result
    else append_token result profile_capacity token

-- Each round but the last takes a character of the line, so its length bounds the rounds.
unfoldable pub remove_loop : ℕ → Bool → Text → Text → Text → Text
remove_loop zero skip_next_min line exe_path result = result
remove_loop (suc rounds) skip_next_min line exe_path result =
    let start = skip_spaces line in
    let (token, rest) = take_token 159 start in
    let final =
      remove_loop rounds (text_eq token exe_path) rest exe_path
        (keep_token skip_next_min exe_path token result) in
    if is_empty start then result else final

unfoldable pub remove_autostart_entry : Text → ℕ → Text → Text
remove_autostart_entry line capacity exe_path =
    copy_text line (remove_loop (suc (length line)) false line exe_path []) capacity

-- The lines `run` and `load` that app_apply_autostart writes back, once it has found the path of
-- the program. What GetProfileString gives for them is an argument.
unfoldable pub apply_autostart : Bool → Bool → Text → Text → Text → Text × Text
apply_autostart autostart start_minimized module_path run load =
    let run_line = remove_autostart_entry run profile_capacity module_path in
    let load_line = remove_autostart_entry load profile_capacity module_path in
    if autostart
    then if start_minimized
      then (run_line, append_token load_line profile_capacity module_path)
      else (append_token run_line profile_capacity module_path, load_line)
    else (run_line, load_line)
