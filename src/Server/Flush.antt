-- ===== src/Server/Flush.antt =====
-- `flush_all_pending_writes` and `reap_closed_connections` of src/worker.rs. A hash map is visited in
-- the order of its list.
use http.Error.{connection_not_found, Http3NativeError}
use http.ArcBuf.{ArcBuf}
use http.Admission.{AdmissionWatermarks}
use http.H3Connection.{Http3, H3Api}
use http.Common.{
  elem, put, ◌+◌, total, ltb, erase, ◌==◌, find, is_some, Result, if◌then◌else◌, ◌++◌, Bool, Option,
  List, none, some, false, ℕ, ◌∷◌, [], ok, err,
}
use http.Server.Commands.{is_h3_stream_blocked}
use http.Server.{
  response_units, set_connection, connection_of, same_key, StreamKey, Server, Pushed,
  release_outbound_admission, emit_h3_send_error_and_reset, event_drain, event_reset,
  event_session_close, ServerEvent, event_handle, and_then,
}
use http.H3Connection.Sends.{send_body_arcbuf, send_response}
use http.PendingWrite.Response.{PendingResponse, body_units, flush_one_h3_pending_response}
use http.PendingWrite.Flushers.{flush_pending_writes, h3_gone, send_to}
use http.PendingWrite.Streams.{Round}
use http.PendingWrite.{FlushOutcome, SendOutcome, queued_units}
use http.TimerHeap.{remove_connection}

module _ (api : H3Api) (m : AdmissionWatermarks) where
  open api use {Headers}

  abbrev pub Connections : Type 0
  Connections = List (ℕ × Http3 api)

  abbrev pub Responses : Type 0
  Responses = List (StreamKey × PendingResponse Headers)

  -- The connection's operations on one of its streams.
  abbrev pub respond :
      ℕ → Http3 api → Headers → Bool → Http3 api × Result (Unit {0}) Http3NativeError
  respond stream c headers fin = send_response api c stream headers fin

  abbrev pub send_body :
      ℕ → Http3 api → ArcBuf → Bool → Http3 api × Result SendOutcome Http3NativeError
  send_body stream c buf fin = send_body_arcbuf api c stream buf fin

  -- A send to a stream of one of the connections; the flush asks for streams of these only.
  abbrev pub send_there :
      ℕ
      → ℕ
      → Connections
      → Option (Http3 api)
      → ArcBuf
      → Bool
      → Connections × Result SendOutcome Http3NativeError
  send_there handle stream s none buf fin = (s, err (connection_not_found handle))
  send_there handle stream s (some c) buf fin =
      let (c', r) = send_body_arcbuf api c stream buf fin in (put ◌==◌ handle c' s, r)

  abbrev pub send_to_stream :
      ℕ → ℕ → Connections → ArcBuf → Bool → Connections × Result SendOutcome Http3NativeError
  send_to_stream handle stream s buf fin = send_there handle stream s (find ◌==◌ handle s) buf fin

  abbrev pub has_connection : Connections → ℕ → Bool
  has_connection s handle = is_some (find ◌==◌ handle s)

  abbrev pub is_closed_on : Option (Http3 api) → ℕ → Bool
  is_closed_on none stream = false
  is_closed_on (some c) stream = api.stream_closed c.quiche_conn stream

  abbrev pub stream_closed_on : Connections → ℕ → ℕ → Bool
  stream_closed_on s handle stream = is_closed_on (find ◌==◌ handle s) stream

  -- The handler, the responses that go on waiting and the events.
  abbrev pub Flushing : Type 0
  Flushing = Server api × Responses × List ServerEvent

  abbrev pub dropped : Pushed api → Flushing
  dropped (s, events) = (s, [], events)

  -- After one response was flushed on its connection.
  abbrev pub after_response_flush :
      Server api
      → StreamKey
      → ℕ
      → Http3 api × PendingResponse Headers × Result FlushOutcome Http3NativeError
      → Flushing
  after_response_flush s key before_units (c, r, ok o) =
      let (s', ready) =
        release_outbound_admission api m (set_connection api s key.0 c) o.released_units in
      if o.done
      then (s', [], ready ++ (event_drain (event_handle api s key.0) key.1 ∷ []))
      else (s', (key, r) ∷ [], ready)
  after_response_flush s key before_units (c, r, err e) = dropped (
      and_then api (release_outbound_admission api m s before_units)
        (λ s'. emit_h3_send_error_and_reset api s' c key.0 key.1))

  abbrev pub flush_response_on :
      Server api → StreamKey → PendingResponse Headers → Option (Http3 api) → Flushing
  flush_response_on s key r none = dropped (release_outbound_admission api m s (body_units r.body))
  flush_response_on s key r (some c) =
      if api.stream_closed c.quiche_conn key.1
      then dropped (release_outbound_admission api m s (body_units r.body))
      else after_response_flush s key (body_units r.body) (
          flush_one_h3_pending_response (respond key.1) (is_h3_stream_blocked api m)
            (send_body key.1) c r)

  -- The loop over the pending responses.
  abbrev pub flush_responses : Server api → Responses → Flushing
  flush_responses s [] = (s, [], [])
  flush_responses s ((key, r) ∷ rest) =
      let (s1, kept, events) = flush_response_on s key r (connection_of api s key.0) in
      let (s2, others, later) = flush_responses s1 rest in (s2, kept ++ others, events ++ later)

  abbrev pub drains : Server api → List StreamKey → List ServerEvent
  drains s [] = []
  drains s ((handle, stream) ∷ keys) =
      event_drain (event_handle api s handle) stream ∷ drains s keys

  abbrev pub gone_stream : Connections → StreamKey → Bool
  gone_stream = h3_gone has_connection stream_closed_on send_to_stream

  abbrev pub to_stream :
      StreamKey → Connections → ArcBuf → Bool → Connections × Result SendOutcome Http3NativeError
  to_stream = send_to has_connection stream_closed_on send_to_stream

  abbrev pub FlushedWrites : Type 0
  FlushedWrites = Round gone_stream to_stream

  -- The second half: the pending writes, after they were flushed.
  abbrev pub after_writes_flush : Server api → FlushedWrites → Pushed api
  after_writes_flush s (conns, left, flushed) =
      and_then api
        (release_outbound_admission api m (record s { connections = conns; pending_writes = left })
          flushed.released_units)
        (λ s'. (s', drains s' flushed.drained))

  unfoldable pub flush_all_pending_writes : Server api → Pushed api
  flush_all_pending_writes s =
      let (s1, kept, events) = flush_responses s s.pending_responses in
      let s2 : Server api = record s1 { pending_responses = kept } in
      let (s3, later) = after_writes_flush s2 (
        flush_pending_writes has_connection stream_closed_on send_to_stream s2.connections
          s2.pending_writes) in
      (s3, events ++ later)

  -- What is kept of a map when the connection with a handle goes.
  abbrev pub without_connection {ℓ} : {V : Type ℓ} → ℕ → List (StreamKey × V) → List (StreamKey × V)
  without_connection handle [] = []
  without_connection handle ((key, v) ∷ rest) =
      let others = without_connection handle rest in
      if key.0 == handle then others else (key, v) ∷ others

  -- And what goes.
  abbrev pub of_connection {ℓ} : {V : Type ℓ} → ℕ → List (StreamKey × V) → List (StreamKey × V)
  of_connection handle [] = []
  of_connection handle ((key, v) ∷ rest) =
      let others = of_connection handle rest in
      if key.0 == handle then (key, v) ∷ others else others

  abbrev pub streams_of {ℓ} : {V : Type ℓ} → List (StreamKey × V) → List ℕ
  streams_of [] = []
  streams_of ((key, v) ∷ rest) = key.1 ∷ streams_of rest

  -- `sort_unstable` and `dedup` of the abandoned streams: an insertion that skips what is there.
  abbrev pub insert_stream : ℕ → List ℕ → List ℕ
  insert_stream k [] = k ∷ []
  insert_stream k (x ∷ xs) =
      let rest = insert_stream k xs in
      if k == x then x ∷ xs else if ltb k x then k ∷ x ∷ xs else x ∷ rest

  abbrev pub sort_dedup : List ℕ → List ℕ
  sort_dedup [] = []
  sort_dedup (x ∷ xs) = insert_stream x (sort_dedup xs)

  abbrev pub resets : ℕ → List ℕ → List ServerEvent
  resets handle [] = []
  resets handle (stream ∷ streams) = event_reset handle stream 0 ∷ resets handle streams

  -- One closed connection: its streams are reset, their units released, its end is told unless the
  -- timers have.
  abbrev pub reap : Server api → ℕ → Pushed api
  reap s handle =
      let writes = of_connection handle s.pending_writes in
      let responses = of_connection handle s.pending_responses in
      let id = event_handle api s handle in
      let abandoned = sort_dedup (streams_of writes ++ streams_of responses) in
      let s1 : Server api = record s {
        timer_heap = remove_connection s.timer_heap handle;
        pending_session_closes = erase ◌==◌ handle s.pending_session_closes;
        pending_writes = without_connection handle s.pending_writes;
        pending_responses = without_connection handle s.pending_responses;
      } in
      let (s2, ready) =
        release_outbound_admission api m s1
          (total same_key queued_units writes + total same_key (response_units api) responses) in
      (
        s2,
        resets id abandoned
            ++ (ready ++ (if elem handle s.last_expired then [] else event_session_close id ∷ [])),
      )

  abbrev pub reap_all : Server api → List ℕ → Pushed api
  reap_all s [] = (s, [])
  reap_all s (handle ∷ handles) = and_then api (reap s handle) (λ s'. reap_all s' handles)

  -- `drain_closed`: the handles of the closed connections, and the connections that stay.
  abbrev pub closed_handles : Connections → List ℕ
  closed_handles [] = []
  closed_handles ((handle, c) ∷ rest) =
      let others = closed_handles rest in
      if api.is_closed c.quiche_conn then handle ∷ others else others

  abbrev pub open_connections : Connections → Connections
  open_connections [] = []
  open_connections ((handle, c) ∷ rest) =
      let others = open_connections rest in
      if api.is_closed c.quiche_conn then others else (handle, c) ∷ others

  unfoldable pub reap_closed_connections : Server api → Pushed api
  reap_closed_connections s =
      let s1 : Server api = record s { connections = open_connections s.connections } in
      let (s2, events) = reap_all s1 (closed_handles s.connections) in
      (record s2 { last_expired = [] }, events)
