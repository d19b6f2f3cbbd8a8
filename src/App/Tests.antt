-- ===== src/App/Tests.antt =====
-- Two minutes, and the lines of a WIN.INI.
use win16sync.Prelude.{ℕ, ◌*◌, ◌≤◌, ◌<◌, ◌≡◌, ◌↔◌, refl, Text, codes, text_eq, false, ◌∷◌, []}
use win16sync.App.{parse_interval_text, timer_milliseconds}
use win16sync.App.Autostart.Words.{kept}
use win16sync.Line.Params.{words}
use win16sync.App.Timer.{timer_milliseconds-parse_interval_text}

two_minutes : timer_milliseconds 120 ≡ 54464
unfolding timer_milliseconds
two_minutes = refl

abbrev atoi : Text → ℕ
atoi text = 120

timer_milliseconds-parse_interval_text_example :
    (1 ≤ parse_interval_text atoi (codes "120"))
    × (parse_interval_text atoi (codes "120") ≤ 3600)
    × ((timer_milliseconds (parse_interval_text atoi (codes "120"))
          ≡ parse_interval_text atoi (codes "120") * 1000)
        ↔ (parse_interval_text atoi (codes "120") ≤ 65))
    × (65 < parse_interval_text atoi (codes "120")
        → timer_milliseconds (parse_interval_text atoi (codes "120"))
          < parse_interval_text atoi (codes "120") * 1000)
timer_milliseconds-parse_interval_text_example =
    timer_milliseconds-parse_interval_text atoi (codes "120")

abbrev run : Text
run = codes "CLOCK.EXE C:\\W16\\W16SYNC.EXE /MIN  CALC.EXE"

abbrev program : Text
program = codes "C:\\W16\\W16SYNC.EXE"

removed : kept program false (words run) ≡ codes "CLOCK.EXE" ∷ codes "CALC.EXE" ∷ []
unfolding text_eq
removed = refl
