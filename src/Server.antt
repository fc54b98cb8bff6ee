-- ===== src/Server.antt =====
-- The HTTP/3 server handler of src/worker.rs: what it keeps for streams that wait, and how it returns
-- units to the write admission. Metrics, logs and traces are left out.
pub mod Commands
pub mod Chunks
pub mod Ledger
pub mod Dispatch
pub mod Flush
pub mod Flushed
pub mod Reaped
pub mod Validity
pub mod Run
pub mod Drains
pub mod Direct
mod Tests
use http.TimerHeap.{TimerHeap}
use http.ArcBuf.{from_chunk, Chunk, chunk_remaining_len}
use http.Common.{
  ◌&&◌, units_of, find, ◌==◌, erase, if◌then◌else◌, Option, put, ◌++◌, List, Bool, none, some,
  false, ℕ, ◌∷◌, [],
}
use http.H3Connection.{stream_close, H3Api, Http3, H3Connection}
use http.PendingWrite.{queued_units, push_chunk, set_fin, PendingWrite}
use http.PendingWrite.Response.{PendingResponse, body_units}
use http.Admission.Gate.{Gate, Pc, Reply, releases, admits, running, release_alone}
use http.Admission.{AdmissionWatermarks, outbound_payload_units}
use Prim.Native.Nat.{bit_or}

-- A stream of the server: its connection's handle and its id.
abbrev pub StreamKey : Type 0
StreamKey = ℕ × ℕ

abbrev pub same_key : StreamKey → StreamKey → Bool
same_key (conn, stream) (conn', stream') = (conn == conn') && (stream == stream')

-- What is pushed to the batch, less the texts; `reply` is an answer to the command's sender.
pub data ServerEvent : Type 0 where
  event_blocked : ℕ → ℕ → ServerEvent
  event_drain : ℕ → ℕ → ServerEvent
  event_reset : ℕ → ℕ → ℕ → ServerEvent
  event_error : ℕ → ℕ → ServerEvent
  event_session_close : ℕ → ServerEvent
  write_ready : ServerEvent
  reply : Bool → ServerEvent

pub data WorkerCommand (Headers : Type 0) : Type 0 where
  send_response_headers : ℕ → ℕ → Headers → Bool → WorkerCommand Headers
  send_response_body : ℕ → ℕ → Headers → Chunk → Bool → WorkerCommand Headers
  stream_send : ℕ → ℕ → Chunk → Bool → WorkerCommand Headers
  stream_read_credit : ℕ → ℕ → ℕ → WorkerCommand Headers
  close_stream : ℕ → ℕ → ℕ → WorkerCommand Headers
  trailers : ℕ → ℕ → Headers → WorkerCommand Headers
  close_session : ℕ → ℕ → List ℕ → WorkerCommand Headers
  datagram : ℕ → Chunk → WorkerCommand Headers
  shutdown : WorkerCommand Headers

-- `worker_command_outbound_bytes`: what the command was admitted for.
unfoldable pub worker_command_outbound_bytes : {Headers : Type 0} → WorkerCommand Headers → ℕ
worker_command_outbound_bytes (send_response_headers conn stream headers fin) = 0
worker_command_outbound_bytes (send_response_body conn stream headers body fin) =
    outbound_payload_units (chunk_remaining_len body) fin
worker_command_outbound_bytes (stream_send conn stream chunk fin) =
    outbound_payload_units (chunk_remaining_len chunk) fin
worker_command_outbound_bytes (stream_read_credit conn stream bytes) = 0
worker_command_outbound_bytes (close_stream conn stream code) = 0
worker_command_outbound_bytes (trailers conn stream headers) = 0
worker_command_outbound_bytes (close_session conn code reason) = 0
worker_command_outbound_bytes (datagram conn chunk) = chunk_remaining_len chunk
worker_command_outbound_bytes shutdown = 0

abbrev pub h3_internal_error : ℕ
h3_internal_error = 0x0102

-- `PendingResponse::headers_only`, `with_body` and `push_body_chunk`.
unfoldable pub headers_only : {Headers : Type 0} → Headers → Bool → PendingResponse Headers
headers_only headers fin = record {
  headers = headers;
  headers_fin = fin;
  headers_sent = false;
  body = none;
}

unfoldable pub with_body : {Headers : Type 0} → Headers → Chunk → Bool → PendingResponse Headers
with_body headers body fin = record {
  headers = headers;
  headers_fin = false;
  headers_sent = false;
  body = some (http.PendingWrite.new (from_chunk body) fin);
}

-- A chunk, and perhaps a FIN, behind a pending write.
abbrev pub add_chunk : PendingWrite → Chunk → Bool → PendingWrite
add_chunk pw chunk fin = let pw' = (push_chunk pw chunk).0 in if fin then set_fin pw' else pw'

abbrev pub push_body :
    {Headers : Type 0}
    → PendingResponse Headers
    → Chunk
    → Bool
    → Option PendingWrite
    → PendingResponse Headers
push_body r chunk fin (some pw) = record r { body = some (add_chunk pw chunk fin) }
push_body r chunk fin none = record r {
  body = some (http.PendingWrite.new (from_chunk chunk) fin);
  headers_fin = false;
}

unfoldable pub push_body_chunk :
    {Headers : Type 0} → PendingResponse Headers → Chunk → Bool → PendingResponse Headers
push_body_chunk r chunk fin = push_body r chunk fin r.body

-- The handler. The connections of the connection map are kept by handle; `admission` is the window
-- shared with the writers. Pools, packet buffers and the configuration are left out.
pub record H3ServerHandler (Q H Headers : Type 0) : Type 0 where
  pub connections : List (ℕ × H3Connection Q H)
  pub pending_writes : List (StreamKey × PendingWrite)
  pub pending_responses : List (StreamKey × PendingResponse Headers)
  pub pending_session_closes : List (ℕ × (ℕ × List ℕ × ℕ))
  pub timer_heap : TimerHeap
  pub last_expired : List ℕ
  pub handle_offset : ℕ
  pub admission : Gate

module _ (api : H3Api) where
  abbrev pub Server : Type 0
  Server = H3ServerHandler api.Conn api.H3 api.Headers

  -- A handler's method changes it and pushes events.
  abbrev pub Pushed : Type 0
  Pushed = Server × List ServerEvent

  abbrev pub and_then : Pushed → (Server → Pushed) → Pushed
  and_then (s, events) go = let (s', later) = go s in (s', events ++ later)

  abbrev pub set_connection : Server → ℕ → Http3 api → Server
  set_connection s handle c = record s { connections = put ◌==◌ handle c s.connections }

  abbrev pub connection_of : Server → ℕ → Option (Http3 api)
  connection_of s handle = find ◌==◌ handle s.connections

  abbrev pub event_handle : Server → ℕ → ℕ
  event_handle s handle = bit_or s.handle_offset handle

  abbrev pub replied : Gate × Pc × Reply → Gate × Bool
  replied (g, pc, running) = (g, false)
  replied (g, pc, admits b) = (g, false)
  replied (g, pc, releases b) = (g, b)

  -- `OutboundAdmission::release`, while no writer is in between.
  unfoldable pub release_units : AdmissionWatermarks → Gate → ℕ → Gate × Bool
  release_units m g units = replied (release_alone m g units)

  -- `release_outbound_admission`
  unfoldable pub release_outbound_admission : AdmissionWatermarks → Server → ℕ → Pushed
  release_outbound_admission m s units =
      let (gate, ready) = release_units m s.admission units in
      (record s { admission = gate }, if ready then write_ready ∷ [] else [])

  -- `insert_pending_write` and `insert_pending_response`
  unfoldable pub insert_pending_write : Server → StreamKey → PendingWrite → Server
  insert_pending_write s key write = record s {
    pending_writes = put same_key key write s.pending_writes;
  }

  unfoldable pub insert_pending_response : Server → StreamKey → PendingResponse api.Headers → Server
  insert_pending_response s key response = record s {
    pending_responses = put same_key key response s.pending_responses;
  }

  abbrev pub response_units : PendingResponse api.Headers → ℕ
  response_units r = body_units r.body

  -- `remove_pending_write` and `remove_pending_response`: the units of what was removed.
  unfoldable pub remove_pending_write : Server → StreamKey → Server × ℕ
  remove_pending_write s key = (
    record s { pending_writes = erase same_key key s.pending_writes },
    units_of same_key queued_units (find same_key key s.pending_writes),
  )

  unfoldable pub remove_pending_response : Server → StreamKey → Server × ℕ
  remove_pending_response s key = (
    record s { pending_responses = erase same_key key s.pending_responses },
    units_of same_key response_units (find same_key key s.pending_responses),
  )

  -- `emit_h3_send_error_and_reset`
  unfoldable pub emit_h3_send_error_and_reset : Server → Http3 api → ℕ → ℕ → Pushed
  emit_h3_send_error_and_reset s c handle stream = (
    set_connection s handle (stream_close api c stream h3_internal_error),
    event_error (event_handle s handle) stream ∷ [],
  )
