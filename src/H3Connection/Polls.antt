-- ===== src/H3Connection/Polls.antt =====
-- `poll_drain_events` of src/connection.rs.
use http.Common.{
  map_err, elem, Option, ◌++◌, if◌then◌else◌, Result, List, none, some, ℕ, ◌∷◌, [], zero, suc, ok,
  err,
}
use http.H3Connection.{
  capacity_code, prune_closed_blocked_streams, clear_stream_tracking, H3Api, Http3, CapacityError,
  stream_stopped, capacity_other,
}
use http.Blocked.{failed, drained, DrainEvent, poll_queue, without}

-- What the poll tells the application.
pub data PollEvent : Type 0 where
  stream_reset : ℕ → ℕ → PollEvent
  stream_drain : ℕ → PollEvent
  stream_failed : ℕ → PollEvent

abbrev pub poll_events : List DrainEvent → List PollEvent
poll_events [] = []
poll_events (drained id ∷ events) = stream_drain id ∷ poll_events events
poll_events (failed id ∷ events) = stream_failed id ∷ poll_events events

module _ (api : H3Api) where
  -- One writable stream: STOP_SENDING ends it, and a blocked one drains.
  unfoldable pub drain_if_blocked : Http3 api → ℕ → Http3 api × List PollEvent
  drain_if_blocked c id =
      if elem id c.blocked.set
      then (
        record c {
          blocked = record { queue = without id c.blocked.queue; set = without id c.blocked.set };
        },
        stream_drain id ∷ [],
      )
      else (c, [])

  unfoldable pub on_writable : Http3 api → ℕ → Result ℕ CapacityError → Http3 api × List PollEvent
  on_writable c id (err (stream_stopped code)) =
      (clear_stream_tracking api c id, stream_reset id code ∷ [])
  on_writable c id (err (capacity_other code)) = drain_if_blocked c id
  on_writable c id (ok capacity) = drain_if_blocked c id

  abbrev pub chain :
      Http3 api × List PollEvent
      → (Http3 api → Http3 api × List PollEvent)
      → Http3 api × List PollEvent
  chain (c, events) go = let (c', later) = go c in (c', events ++ later)

  -- A round of the loop over the writable streams, and the loop with a bound on its rounds.
  abbrev pub writable_round :
      Http3 api
      → (Http3 api → Http3 api × List PollEvent)
      → api.Conn × Option ℕ
      → Http3 api × List PollEvent
  writable_round c go (q, none) = (record c { quiche_conn = q }, [])
  writable_round c go (q, some id) =
      chain (on_writable (record c { quiche_conn = q }) id (api.stream_capacity q id)) go

  abbrev pub writable_loop : ℕ → Http3 api → Http3 api × List PollEvent
  writable_loop zero c = (c, [])
  writable_loop (suc fuel) c =
      writable_round c (λ c'. writable_loop fuel c') (api.stream_writable_next c.quiche_conn)

  unfoldable pub poll_drain_events : Http3 api → Http3 api × List PollEvent
  poll_drain_events c =
      let c1 = prune_closed_blocked_streams api c in
      let (c2, events) = writable_loop (suc (api.writable_len c1.quiche_conn)) c1 in
      let (blocked, later) =
        poll_queue (λ id. map_err capacity_code (api.stream_capacity c2.quiche_conn id))
          c2.blocked in
      (record c2 { blocked = blocked }, events ++ poll_events later)
