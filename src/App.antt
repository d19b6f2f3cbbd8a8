-- ===== src/App.antt =====
-- client/main.c: the time between two synchronisations, app_parse_interval_text and
-- app_apply_timer. `unsigned int` and UINT have 16 bits in this program; `atoi`, cast to them, is a
-- parameter.
pub mod Timer
pub mod Autostart
pub mod Config
pub mod Helper
mod Tests
use win16sync.Prelude.{ℕ, ◌*◌, ◌%◌, ◌^◌, ◌||◌, ltb, if◌then◌else◌, Text}

-- APP_DEFAULT_INTERVAL_SECONDS, APP_MIN_INTERVAL_SECONDS and APP_MAX_INTERVAL_SECONDS
abbrev pub default_interval : ℕ
default_interval = 15

abbrev pub min_interval : ℕ
min_interval = 1

abbrev pub max_interval : ℕ
max_interval = 3600

unfoldable pub parse_interval_text : (Text → ℕ) → Text → ℕ
parse_interval_text atoi text =
    let value = atoi text in
    if ltb value min_interval || ltb max_interval value then default_interval else value

-- The milliseconds that app_apply_timer gives SetTimer for `sync_interval_seconds`.
unfoldable pub timer_milliseconds : ℕ → ℕ
timer_milliseconds seconds = (seconds * 1000) % 2 ^ 16
