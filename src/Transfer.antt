-- ===== src/Transfer.antt =====
-- client/proto.c: proto_report_transfer, which shows how far a transfer is. The text that it shows
-- is given by its three figures.
pub mod Rate
mod Tests
use win16sync.Prelude.{
  ℕ, ◌+◌, ◌-◌, ◌*◌, ◌/◌, ◌%◌, ◌^◌, Bool, false, not, ◌&&◌, Option, none, some, ltb, leb, ◌==◌,
  if◌then◌else◌,
}
use win16sync.Cache.{elapsed}

pub record Figures : Type 0 where
  pub kb_per_second : ℕ
  pub kb_done : ℕ
  pub kb_total : ℕ

-- Whether the last report is too fresh. `last_tick` is what the pointer points to, `none` if it is
-- NULL; a zero stands for no report yet.
abbrev pub is_fresh : Option ℕ → ℕ → Bool
is_fresh none now = false
is_fresh (some last) now = not (last == 0) && ltb (elapsed now last) 250

abbrev pub to_kb : ℕ → ℕ
to_kb bytes = (bytes + 1023) % 2 ^ 32 / 1024

-- Ticks and bytes are 32-bit values.
abbrev pub bytes_per_second : ℕ → ℕ → ℕ → ℕ
bytes_per_second now bytes_done started_tick =
    let passed = if leb started_tick now then now - started_tick else 0 in
    if passed == 0 then 0 else (bytes_done * 1000) % 2 ^ 32 / passed

abbrev pub set_tick : Option ℕ → ℕ → Option ℕ
set_tick none now = none
set_tick (some last) now = some now

-- What is shown, if anything is, and the new `*last_tick`.
unfoldable pub report_transfer : ℕ → ℕ → ℕ → ℕ → Option ℕ → Option Figures × Option ℕ
report_transfer now bytes_done bytes_total started_tick last_tick =
    if is_fresh last_tick now && ltb bytes_done bytes_total then (none, last_tick) else (
      some (record {
        kb_per_second = to_kb (bytes_per_second now bytes_done started_tick);
        kb_done = to_kb bytes_done;
        kb_total = to_kb bytes_total;
      }),
      set_tick last_tick now,
    )
