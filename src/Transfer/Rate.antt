-- ===== src/Transfer/Rate.antt =====
-- When proto_report_transfer shows something, and that its figures are right below 4 MB.
use win16sync.Prelude.{
  ℕ, ◌+◌, ◌-◌, ◌*◌, ◌/◌, ◌%◌, ◌^◌, ◌≤◌, ◌<◌, ◌≡◌, ◌≢◌, refl, true, false, ◌&&◌, Option, none, some,
  ltb, leb, ◌==◌, arith, Bool-cases, inl, inr,
}
use mathlib.Core.Path.{subst, sym}
use native.Mathlib.Nat.{div-le_self}
use win16sync.Cache.{elapsed}
use win16sync.Transfer.{Figures, is_fresh, to_kb, bytes_per_second, report_transfer}

-- The least number of units of 1024 that covers the number.
abbrev pub Covers : ℕ → ℕ → Type 0
Covers kb bytes = (bytes ≤ kb * 1024) × (kb * 1024 < bytes + 1024)

to_kb-Covers : (bytes : ℕ) → bytes + 1023 < 2 ^ 32 → Covers (to_kb bytes) bytes
to_kb-Covers bytes h = (omega arith, omega arith)

-- What a call has done: nothing within 250 milliseconds after a report while bytes are missing,
-- else the three figures are right and the time is kept.
abbrev pub Reports : ℕ → ℕ → ℕ → ℕ → ℕ → Option Figures × Option ℕ → Type 0
Reports now bytes_done bytes_total started_tick last (none, tick) =
    (last ≢ 0) × (elapsed now last < 250) × (bytes_done < bytes_total) × (tick ≡ some last)
Reports now bytes_done bytes_total started_tick last (some figures, tick) =
    Covers figures.kb_per_second (bytes_done * 1000 / (now - started_tick))
    × Covers figures.kb_done bytes_done
    × Covers figures.kb_total bytes_total
    × (tick ≡ some now)
    × (last ≢ 0 → bytes_done < bytes_total → 250 ≤ elapsed now last)

rate-Covers :
    (now bytes_done started_tick : ℕ)
    → started_tick < now
    → bytes_done * 1000 + 1023 < 2 ^ 32
    → Covers
        (to_kb (bytes_per_second now bytes_done started_tick))
        (bytes_done * 1000 / (now - started_tick))
rate-Covers now bytes_done started_tick later small =
    let rate : bytes_per_second now bytes_done started_tick
        ≡ bytes_done * 1000 / (now - started_tick) =
      let started : leb started_tick now ≡ true = ground arith in
      let passed : ((now - started_tick) == 0) ≡ false = ground arith in
      let whole : (bytes_done * 1000) % 2 ^ 32 ≡ bytes_done * 1000 = omega arith in
      rw (started, passed, whole) in
    subst (λ r. Covers (to_kb r) (bytes_done * 1000 / (now - started_tick))) (sym rate)
      (to_kb-Covers (bytes_done * 1000 / (now - started_tick))
        (omega (arith, div-le_self (bytes_done * 1000) (now - started_tick))))

-- Each call of proto_report_transfer for a transfer of at most 4,294,966 bytes so far, later than
-- its start, whose total is below 2^32 - 1023 bytes, with a place for the time of the last report:
-- it shows the rate and both sizes in KB, rounded up, and keeps the time. It shows nothing only
-- while bytes are missing and less than 250 milliseconds after the last report.
pub report_transfer-Reports :
    (now bytes_done bytes_total started_tick last : ℕ)
    → started_tick < now
    → bytes_done ≤ 4294966
    → bytes_total + 1023 < 2 ^ 32
    → Reports now bytes_done bytes_total started_tick last
        (report_transfer now bytes_done bytes_total started_tick (some last))
unfolding report_transfer
report_transfer-Reports now bytes_done bytes_total started_tick last later small whole =
    elim (Bool-cases (is_fresh (some last) now && ltb bytes_done bytes_total)) [
      | inl quiet ↦ rw quiet (ground arith)
      | inr shown ↦ rw shown (
        rate-Covers now bytes_done started_tick later (omega arith),
        to_kb-Covers bytes_done (omega arith),
        to_kb-Covers bytes_total whole,
        refl,
        ground arith,
      )
    ]
