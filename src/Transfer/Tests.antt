-- ===== src/Transfer/Tests.antt =====
-- Runs of the report.
use win16sync.Prelude.{◌≡◌, refl, arith, none, some}
use win16sync.Transfer.{report_transfer}
use win16sync.Transfer.Rate.{Reports, report_transfer-Reports}

-- 100 KB of 200 KB after two seconds, half a second after the last report.
report_transfer-Reports_example :
    Reports 3000 102400 204800 1000 2500 (report_transfer 3000 102400 204800 1000 (some 2500))
report_transfer-Reports_example =
    report_transfer-Reports 3000 102400 204800 1000 2500 (omega arith) (omega arith) (omega arith)

-- 4.3 million bytes in a second are shown as 5 KB, since the product with 1000 has wrapped.
wrapped :
    (report_transfer 2000 4300000 9000000 1000 none).0
    ≡ some (record { kb_per_second = 5; kb_done = 4200; kb_total = 8790 })
unfolding report_transfer
wrapped = refl
