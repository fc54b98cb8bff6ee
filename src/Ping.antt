-- ===== src/Ping.antt =====
-- src/ping_state.rs: pings that wait for an acknowledgement, oldest first. Times are numbers, and a
-- round trip is counted in the unit of the clock.
mod Tests
use http.Common.{
  arith, ap, ltb, Bool-cases, ◌&&◌, usize_mod, All, ◌-◌, if◌then◌else◌, leb, saturating_add, ◌<◌,
  ◌≡◌, Bool, ◌++◌, List, inl, inr, true, false, refl, ℕ, ◌∷◌, [],
}

pub record PendingPing : Type 0 where
  pub started_at : ℕ
  pub target_sent_packets : ℕ
  pub baseline_acked_bytes : ℕ

-- What the code reads of `quiche::Stats`.
pub record Stats : Type 0 where
  pub sent : ℕ
  pub acked_bytes : ℕ

abbrev pub PingState : Type 0
PingState = List PendingPing

unfoldable pub queue : PingState → Stats → ℕ → PingState
queue pending stats now =
    pending
    ++ (record {
      started_at = now;
      target_sent_packets = saturating_add stats.sent 1;
      baseline_acked_bytes = stats.acked_bytes;
    }
        ∷ [])

-- The test of the loop on the front.
unfoldable pub is_acked : Stats → PendingPing → Bool
is_acked stats ping =
    leb ping.target_sent_packets stats.sent && ltb ping.baseline_acked_bytes stats.acked_bytes

unfoldable pub complete_acked : PingState → Stats → ℕ → PingState × List ℕ
unfolding is_acked
complete_acked [] stats now = ([], [])
complete_acked (ping ∷ pending) stats now =
    let (left, completed) = complete_acked pending stats now in
    if is_acked stats ping
    then (left, (now - ping.started_at) ∷ completed)
    else (ping ∷ pending, [])

abbrev pub round_trips : ℕ → List PendingPing → List ℕ
round_trips now [] = []
round_trips now (ping ∷ rest) = (now - ping.started_at) ∷ round_trips now rest

-- The front, if there is one, is not acknowledged.
abbrev pub FrontWaits : Stats → PingState → Type 0
FrontWaits stats [] = Unit {0}
FrontWaits stats (ping ∷ rest) = is_acked stats ping ≡ false

-- The pings are completed from the front, in order, each once and only when acknowledged, and the
-- loop stops at the first that is not.
pub complete_acked_lem :
    (pending : PingState) (stats : Stats) (now : ℕ)
    → let (left, completed) = complete_acked pending stats now in
      (done : List PendingPing) × (pending ≡ done ++ left)
      × (completed ≡ round_trips now done)
      × All (λ ping. is_acked stats ping ≡ true) done
      × FrontWaits stats left
unfolding complete_acked
complete_acked_lem [] stats now = ([], refl, refl, tt, tt)
complete_acked_lem (ping ∷ pending) stats now = elim (Bool-cases (is_acked stats ping)) [
  | inl e ↦
      let (done, split, times, acked, waits) = complete_acked_lem pending stats now in
      rw e (
        ping ∷ done,
        ap (λ r. ping ∷ r) split,
        ap (λ r. (now - ping.started_at) ∷ r) times,
        (e, acked),
        waits,
      )
  | inr e ↦ rw e ([], refl, refl, tt, e)
]

-- A ping is not complete by what was sent and acknowledged before it was queued.
pub queue-waits :
    (stats : Stats) (now : ℕ)
    → stats.sent < usize_mod
    → complete_acked (queue [] stats now) stats now ≡ (queue [] stats now, [])
unfolding queue complete_acked is_acked
queue-waits stats now h = ground arith
