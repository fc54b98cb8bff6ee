-- ===== src/EventGauge/Progress.antt =====
-- The pause of src/event_loop.rs and its end, when the application stops acknowledging.
use http.Common.{◌∙◌, ap, ◌^◌, leb, ◌-◌, ◌+◌, ◌≡◌, ◌<◌, true, refl, ℕ, arith}
use http.EventGauge.{
  EventGauge, app_event_pause_high_water, max_batch_size, record_event_batch_flush,
  record_event_batch_ack, self_heal_event_batch_if_stuck_at, app_event_budget, heal_before_poll,
  release_event_batch_outstanding,
}

-- More than 5 seconds without progress, and the pause is over: if the gauge is above the mark, the
-- next turn may collect a whole batch again.
pub heal_before_poll-resumes :
    (g : EventGauge) (now pending_batch_len : ℕ)
    → app_event_pause_high_water < g.outstanding
    → 0 < g.last_progress_ms
    → g.last_progress_ms + 5_000 < now
    → app_event_budget (heal_before_poll g now) pending_batch_len
      ≡ max_batch_size - pending_batch_len
unfolding heal_before_poll self_heal_event_batch_if_stuck_at app_event_budget
heal_before_poll-resumes g now pending_batch_len h p t = ground (arith, h, p, t)

-- At the mark itself the pause holds, and no wait ends it: the healing starts only above it.
pub heal_at_mark :
    (g : EventGauge) (now pending_batch_len : ℕ)
    → g.outstanding ≡ app_event_pause_high_water
    → (heal_before_poll g now ≡ g)
      × (app_event_budget (heal_before_poll g now) pending_batch_len ≡ 0)
unfolding heal_before_poll self_heal_event_batch_if_stuck_at app_event_budget
heal_at_mark g now pending_batch_len h = (same, paused)
  where
    at_most : leb g.outstanding app_event_pause_high_water ≡ true
    at_most = ground (arith, h)

    same : heal_before_poll g now ≡ g
    same = rw (at_most, heal_before_poll) refl

    paused : app_event_budget (heal_before_poll g now) pending_batch_len ≡ 0
    paused = ap (λ g'. app_event_budget g' pending_batch_len) same ∙ ground (arith, h)

-- Events that were delivered and are acknowledged leave the gauge where it was, however the
-- acknowledgement is split.
pub flush_ack-gauge :
    (g : EventGauge) (a b now later : ℕ)
    → g.outstanding + (a + b) < 2 ^ 64
    → let flushed = record_event_batch_flush g (a + b) now in
      (record_event_batch_ack (record_event_batch_ack flushed a later) b later).outstanding
      ≡ g.outstanding
unfolding record_event_batch_flush record_event_batch_ack release_event_batch_outstanding
flush_ack-gauge g a b now later h = ground (arith, h)
