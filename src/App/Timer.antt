-- ===== src/App/Timer.antt =====
-- Which intervals the timer keeps.
use win16sync.Prelude.{ℕ, ◌*◌, ◌≤◌, ◌<◌, ◌≡◌, ◌↔◌, Text, arith}
use win16sync.App.{min_interval, max_interval, parse_interval_text, timer_milliseconds}

-- The interval that app_parse_interval_text accepts lies between one second and an hour, and
-- app_apply_timer sets the timer to just that time if and only if it is at most 65 seconds: above,
-- the product wraps and the timer fires too early.
pub timer_milliseconds-parse_interval_text :
    (atoi : Text → ℕ) (text : Text)
    → let seconds = parse_interval_text atoi text in
      (min_interval ≤ seconds)
      × (seconds ≤ max_interval)
      × ((timer_milliseconds seconds ≡ seconds * 1000) ↔ (seconds ≤ 65))
      × (65 < seconds → timer_milliseconds seconds < seconds * 1000)
unfolding parse_interval_text timer_milliseconds
timer_milliseconds-parse_interval_text atoi text =
    (ground arith, ground arith, (ground arith, ground arith), ground arith)
