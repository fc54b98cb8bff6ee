-- ===== src/H3Connection/Tests.antt =====
-- The HTTP/3 connection over the quiche of SharedTests.
use http.ArcBuf.{ArcBuf}
use http.Common.{◌≢◌, ◌⊎◌, ◌≡◌, elem, none, some, true, false, refl, ℕ, ◌∷◌, [], arith, ok}
use http.H3Connection.SharedTests.{toy, toy-SendsBody, toy-Writables, connection}
use http.H3Connection.Exact.{send_body_arcbuf-Sent, Sent}
use http.H3Connection.Drains.{poll_drain_events_lem, told}
use http.H3Connection.Loop.{writable_loop-enough}
use http.H3Connection.Limits.{add_read_credit_lem, Bounded, credit, given}
use http.H3Connection.Sends.{send_body_arcbuf}
use http.H3Connection.Polls.{poll_drain_events, writable_loop}
use http.H3Connection.{add_read_credit}
use http.Blocked.Tracking.{IsValid}

abbrev buf : ArcBuf
buf = record { store = 1 ∷ 2 ∷ 3 ∷ 4 ∷ 5 ∷ []; pool = none; offset = 0; len = 5 }

send_body_arcbuf-Sent_example :
    Sent toy toy-SendsBody connection 0 5 true (send_body_arcbuf toy connection 0 buf true)
send_body_arcbuf-Sent_example = send_body_arcbuf-Sent toy toy-SendsBody connection 0 buf true

connection-IsValid : IsValid connection.blocked
connection-IsValid = record { distinct = (refl, (refl, (refl, tt))); agree = λ k. ground arith }

poll_drain_events_lem_example :
    let (c', events) = poll_drain_events toy connection in
    IsValid c'.blocked
    × ((k : ℕ)
        → elem k c'.blocked.queue ≡ true
        → (elem k connection.blocked.queue ≡ true) × (toy.stream_capacity c'.quiche_conn k ≡ ok 0))
    × ((k : ℕ)
        → elem k connection.blocked.queue ≡ true
        → elem k c'.blocked.queue ≡ false
        → (toy.stream_closed connection.quiche_conn k ≡ true) ⊎ (told k events ≡ true))
poll_drain_events_lem_example = poll_drain_events_lem toy connection connection-IsValid

writable_loop-enough_example : writable_loop toy 9 connection ≡ writable_loop toy 3 connection
writable_loop-enough_example = writable_loop-enough toy toy-Writables 9 connection (ground arith)

add_read_credit_lem_example :
    let c' = add_read_credit toy connection 0 30 in
    Bounded toy 100 c'
    × (credit toy c' 0 ≡ given toy 100 30 (some 90))
    × ((k : ℕ) → k ≢ 0 → credit toy c' k ≡ credit toy connection k)
add_read_credit_lem_example =
    add_read_credit_lem toy connection 0 30 100 refl (ground arith, (ground arith, tt))
