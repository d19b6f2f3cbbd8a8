-- ===== src/App/Helper/Tests.antt =====
-- An update on a machine in memory.
use win16sync.Prelude.{
  ℕ, ◌≡◌, ◌≢◌, refl, ap, Option, none, some, Text, codes, length, text_eq, if◌then◌else◌, arith,
  get_or,
}
use win16sync.App.Helper.{app_join_path, beside, place_update}
use win16sync.App.Helper.Placed.{Places, place_update-Places}
use win16sync.Dos.Ram.{Files, ram, ram-IsDos}
use win16sync.Path.{get_directory_path}
use win16sync.Text.{copy_text}
use win16sync.Update.{update_ini_name}

-- The new program beside the old one.
abbrev disk : Files
disk q = if text_eq q (codes "C:\\W16NEW.EXE") then some (codes "MZ-new") else none

abbrev size_of : Option Text → ℕ
size_of none = 0
size_of (some contents) = length contents

abbrev size : Files → Text → ℕ
size files p = size_of (files p)

size_whole : (files : Files) (p xs : Text) → files p ≡ some xs → size files p ≡ length xs
size_whole files p xs e = ap size_of e

apart : codes "C:\\W16UPD.INI" ≢ codes "C:\\W16SYNC.EXE"
apart e = absurd (omega (arith, ap (λ t. get_or t 6 0) e))

beside_disk : beside (codes "C:\\W16NEW.EXE") update_ini_name ≡ some (codes "C:\\W16UPD.INI")
unfolding app_join_path get_directory_path copy_text
beside_disk = refl

place_update-Places_example :
    Places ram ram-IsDos size size_whole
      (codes "C:\\W16SYNC.EXE")
      (codes "C:\\W16UPD.INI")
      (codes "MZ-new")
      disk
      (place_update ram size 3
        (some (codes "C:\\W16NEW.EXE"))
        (λ ini. codes "C:\\W16SYNC.EXE")
        disk)
unfolding text_eq
place_update-Places_example =
    place_update-Places ram ram-IsDos size size_whole 3 (codes "C:\\W16NEW.EXE")
      (codes "C:\\W16UPD.INI") (codes "MZ-new") (λ ini. codes "C:\\W16SYNC.EXE") disk beside_disk
      apart refl
