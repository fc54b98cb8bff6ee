-- ===== src/EventGauge.antt =====
-- The gauge of events that the application has not yet dispatched, of src/reactor_metrics.rs, and
-- what src/event_loop.rs makes of it. The atomics are accessed one operation after the other; the
-- totals, which only count, are left out.
pub mod Progress
mod Tests
use http.Common.{◌*◌, ◌||◌, max, ◌==◌, ◌^◌, leb, ◌%◌, if◌then◌else◌, saturating_sub, ◌+◌, ℕ}

-- `EVENT_BATCH_OUTSTANDING`, its high-water mark and `EVENT_BATCH_LAST_PROGRESS_MS`.
pub record EventGauge : Type 0 where
  pub outstanding : ℕ
  pub high_watermark : ℕ
  pub last_progress_ms : ℕ

abbrev pub max_batch_size : ℕ
max_batch_size = 2048

abbrev pub app_event_pause_high_water : ℕ
app_event_pause_high_water = max_batch_size * 2

-- `fetch_add` wraps at 2^64.
unfoldable pub record_event_batch_flush : EventGauge → ℕ → ℕ → EventGauge
record_event_batch_flush g count now =
    let outstanding = (g.outstanding + count) % 2 ^ 64 in
    record {
      outstanding = outstanding;
      high_watermark = max g.high_watermark outstanding;
      last_progress_ms = now;
    }

unfoldable pub release_event_batch_outstanding : EventGauge → ℕ → EventGauge
release_event_batch_outstanding g count = record g {
  outstanding = saturating_sub g.outstanding count;
}

-- `record_event_batch_drop` and `record_event_batch_ack`
unfoldable pub record_event_batch_drop : EventGauge → ℕ → ℕ → EventGauge
record_event_batch_drop g count now =
    release_event_batch_outstanding (record g { last_progress_ms = now }) count

unfoldable pub record_event_batch_ack : EventGauge → ℕ → ℕ → EventGauge
record_event_batch_ack g count now =
    release_event_batch_outstanding (record g { last_progress_ms = now }) count

-- The gauge, and the value that the caller goes by.
unfoldable pub self_heal_event_batch_if_stuck_at : EventGauge → ℕ → ℕ → ℕ → EventGauge × ℕ
self_heal_event_batch_if_stuck_at g high_water stuck_after_ms now =
    if leb g.outstanding high_water
    then (g, g.outstanding)
    else if (g.last_progress_ms == 0) || leb (saturating_sub now g.last_progress_ms) stuck_after_ms
    then (g, g.outstanding)
    else (record g { outstanding = 0; last_progress_ms = now }, 0)

-- `app_event_budget`: how many application events a turn may still collect.
unfoldable pub app_event_budget : EventGauge → ℕ → ℕ
app_event_budget g pending_batch_len =
    if leb app_event_pause_high_water g.outstanding
    then 0
    else saturating_sub max_batch_size pending_batch_len

-- The part of `poll_with_event_backpressure` before the driver is polled, with its marks.
unfoldable pub heal_before_poll : EventGauge → ℕ → EventGauge
heal_before_poll g now =
    (self_heal_event_batch_if_stuck_at g app_event_pause_high_water 5_000 now).0
