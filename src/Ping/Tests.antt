-- ===== src/Ping/Tests.antt =====
-- Two pings, of which the first is acknowledged.
use http.Ping.{
  complete_acked_lem, FrontWaits, is_acked, round_trips, PendingPing, queue, complete_acked,
  PingState, Stats,
}
use http.Common.{All, ◌++◌, ◌≡◌, List, true, []}

abbrev early : Stats
early = record { sent = 4; acked_bytes = 100 }

abbrev late : Stats
late = record { sent = 6; acked_bytes = 160 }

abbrev waiting : PingState
waiting = queue (queue [] early 10) late 20

complete_acked_lem_example :
    let (left, completed) = complete_acked waiting late 35 in
    (done : List PendingPing) × (waiting ≡ done ++ left)
    × (completed ≡ round_trips 35 done)
    × All (λ ping. is_acked late ping ≡ true) done
    × FrontWaits late left
complete_acked_lem_example = complete_acked_lem waiting late 35
