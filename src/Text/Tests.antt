-- ===== src/Text/Tests.antt =====
-- Runs of the copies.
use win16sync.Prelude.{◌≡◌, refl, some, none, [], codes}
use win16sync.Text.{copy_text, append_text}
use win16sync.Prelude.{arith}
use win16sync.Text.Laws.{append_text_lem}

copy_cut : copy_text [] (codes "SYNC.$$$") 5 ≡ codes "SYNC"
unfolding copy_text
copy_cut = refl

append_fits : append_text (codes "C:") (codes "AB") 5 ≡ some (codes "C:AB")
unfolding append_text
append_fits = refl

append_full : append_text (codes "C:") (codes "AB") 4 ≡ none
unfolding append_text
append_full = refl

append_text_lem_example : append_text (codes "C:") (codes "AB") 5 ≡ some (codes "C:AB")
append_text_lem_example = append_text_lem (codes "C:") (codes "AB") 5 (omega arith)
