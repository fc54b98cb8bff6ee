-- ===== src/EventGauge/Tests.antt =====
-- A gauge that nobody acknowledges.
use http.Common.{◌-◌, ◌≡◌, refl, ℕ, arith}
use http.EventGauge.{EventGauge, app_event_budget, heal_before_poll}
use http.EventGauge.Progress.{heal_before_poll-resumes, heal_at_mark}

abbrev stuck : ℕ → EventGauge
stuck n = record { outstanding = n; high_watermark = n; last_progress_ms = 1000 }

heal_before_poll-resumes_example :
    app_event_budget (heal_before_poll (stuck 4097) 6001) 48 ≡ 2048 - 48
heal_before_poll-resumes_example =
    heal_before_poll-resumes (stuck 4097) 6001 48 (ground arith) (ground arith) (ground arith)

heal_at_mark_example :
    (heal_before_poll (stuck 4096) 1_000_000 ≡ stuck 4096)
    × (app_event_budget (heal_before_poll (stuck 4096) 1_000_000) 0 ≡ 0)
heal_at_mark_example = heal_at_mark (stuck 4096) 1_000_000 0 refl
