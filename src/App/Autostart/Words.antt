-- ===== src/App/Autostart/Words.antt =====
-- The words of the lines that client/main.c writes to WIN.INI.
use win16sync.Prelude.{
  ◌+◌, ◌<◌, ◌≡◌, ◌&&◌, ◌||◌, Bool, true, false, List, [], ◌∷◌, ◌++◌, ◌==◌, if◌then◌else◌, length,
  Text, All, text_eq, ◌⊎◌,
}
use win16sync.App.Autostart.{is_min}
use win16sync.Line.Params.{words, HasNoSpace}
use win16sync.Path.{is_empty}

-- The words without the program and the switch behind it.
abbrev pub kept : Text → Bool → List Text → List Text
kept exe_path after_exe [] = []
kept exe_path after_exe (w ∷ ws) =
    let rest = kept exe_path (text_eq w exe_path) ws in
    if text_eq w exe_path || after_exe && is_min w then rest else w ∷ rest

-- A line with a word behind it.
abbrev glue : Text → Text → Text
glue [] w = w
glue (c ∷ line) w = (c ∷ line) ++ (b' ' ∷ w)

abbrev IsShort : Text → Type 0
IsShort w = length w < 160

-- A line that is empty or begins with a space.
abbrev at_end : Text → Bool
at_end [] = true
at_end (c ∷ line) = c == b' '

-- What is collected leaves room for the rest of the line.
abbrev Fits : Text → Text → Type 0
Fits result line =
    (length result + length line < 511) × ((is_empty result ≡ true) ⊎ (at_end line ≡ true))

-- A line of words that a token holds, with room for one of them more.
abbrev pub IsProfileLine : Text → Type 0
IsProfileLine line = (length line < 511) × All IsShort (words line)

-- A path that is one word.
abbrev pub IsWord : Text → Type 0
IsWord w = (is_empty w ≡ false) × HasNoSpace w
