-- ===== src/Server/Commands.antt =====
-- `dispatch_command` of src/worker.rs. The clock is the argument `now` in milliseconds. The commands
-- that only ask for something, and the ping, are left out.
use http.PendingWrite.Response.{PendingResponse}
use http.ArcBuf.{chunk_remaining_len, ArcBuf, Chunk}
use http.Error.{h3, Http3NativeError}
use http.Admission.{outbound_payload_units, accepted_outbound_payload_units, AdmissionWatermarks}
use http.Common.{
  find, ◌==◌, ◌&&◌, put, not, ltb, if◌then◌else◌, Result, ◌+◌, Bool, Option, List, none, some, true,
  false, ℕ, ◌∷◌, [], zero, suc, ok, err,
}
use http.Server.{
  with_body, headers_only, event_handle, connection_of, set_connection, Server, Pushed, and_then,
  StreamKey, same_key, WorkerCommand, datagram, shutdown, trailers, stream_send, event_blocked,
  event_reset, reply, close_session, close_stream, send_response_headers, send_response_body,
  stream_read_credit, insert_pending_response, insert_pending_write, remove_pending_response,
  remove_pending_write, release_outbound_admission, emit_h3_send_error_and_reset, add_chunk,
  push_body_chunk,
}
use http.H3Connection.{stream_close, add_read_credit, Http3, H3Api}
use http.H3Connection.Sends.{
  send_response, send_body_chunk, send_trailers, send_goaway, send_datagram_chunk,
}
use http.PendingWrite.{PendingWrite, SendOutcome}

-- The bytes of "server shutdown".
abbrev pub server_shutdown : List ℕ
server_shutdown =
    115 ∷ 101 ∷ 114 ∷ 118 ∷ 101 ∷ 114 ∷ 32 ∷ 115 ∷ 104 ∷ 117 ∷ 116 ∷ 100 ∷ 111 ∷ 119 ∷ 110 ∷ []

module _ (api : H3Api) (m : AdmissionWatermarks) where
  open api use {Headers}

  -- `is_h3_stream_blocked`
  unfoldable pub is_h3_stream_blocked : Http3NativeError → Bool
  is_h3_stream_blocked (h3 zero) = true
  is_h3_stream_blocked (h3 (suc zero)) = true
  is_h3_stream_blocked _ = false

  -- The rest of a send: it waits, and the application is told so.
  abbrev pub keep_remainder : Server api → StreamKey → Option ArcBuf → Bool → Pushed api
  keep_remainder s key none fin = (s, [])
  keep_remainder s key (some remainder) fin = (
    insert_pending_write api s key (http.PendingWrite.new remainder fin),
    event_blocked (event_handle api s key.0) key.1 ∷ [],
  )

  -- A body send on a connection, after it answered for `len` bytes.
  abbrev pub after_body :
      Server api
      → StreamKey
      → ℕ
      → Bool
      → Http3 api × Result SendOutcome Http3NativeError
      → Pushed api
  after_body s key len fin (c, ok o) =
      and_then api
        (release_outbound_admission api m (set_connection api s key.0 c)
          (accepted_outbound_payload_units len fin o.written o.fin_accepted))
        (λ s'. keep_remainder s' key o.remainder fin)
  after_body s key len fin (c, err e) =
      and_then api (release_outbound_admission api m s (outbound_payload_units len fin))
        (λ s'. emit_h3_send_error_and_reset api s' c key.0 key.1)

  abbrev pub send_body_on : Server api → StreamKey → Http3 api → Chunk → Bool → Pushed api
  send_body_on s key c chunk fin =
      after_body s key (chunk_remaining_len chunk) fin (send_body_chunk api c key.1 chunk fin)

  -- The first step of `SendResponseHeaders`, after the connection answered.
  abbrev pub after_headers_only :
      Server api
      → StreamKey
      → Headers
      → Bool
      → Http3 api × Result (Unit {0}) Http3NativeError
      → Pushed api
  after_headers_only s key headers fin (c, ok u) = (set_connection api s key.0 c, [])
  after_headers_only s key headers fin (c, err e) =
      if is_h3_stream_blocked e
      then (
        insert_pending_response api (set_connection api s key.0 c) key (headers_only headers fin),
        event_blocked (event_handle api s key.0) key.1 ∷ [],
      )
      else emit_h3_send_error_and_reset api s c key.0 key.1

  -- The first step of `SendResponse`; the second sends the body.
  abbrev pub after_headers_with_body :
      Server api
      → StreamKey
      → Headers
      → Chunk
      → Bool
      → Http3 api × Result (Unit {0}) Http3NativeError
      → Pushed api
  after_headers_with_body s key headers body fin (c, ok u) = send_body_on s key c body fin
  after_headers_with_body s key headers body fin (c, err e) =
      if is_h3_stream_blocked e
      then (
        insert_pending_response api (set_connection api s key.0 c) key (with_body headers body fin),
        event_blocked (event_handle api s key.0) key.1 ∷ [],
      )
      else and_then api
          (release_outbound_admission api m s
            (outbound_payload_units (chunk_remaining_len body) fin))
          (λ s'. emit_h3_send_error_and_reset api s' c key.0 key.1)

  -- `StreamSend`: behind a pending response or write, or on the connection.
  abbrev pub send_on :
      Server api
      → StreamKey
      → Chunk
      → Bool
      → Option (PendingResponse Headers)
      → Option PendingWrite
      → Option (Http3 api)
      → Pushed api
  send_on s key chunk fin (some r) write conn = (
    record s {
      pending_responses = put same_key key (push_body_chunk r chunk fin) s.pending_responses;
    },
    [],
  )
  send_on s key chunk fin none (some pw) conn =
      (record s { pending_writes = put same_key key (add_chunk pw chunk fin) s.pending_writes }, [])
  send_on s key chunk fin none none (some c) = send_body_on s key c chunk fin
  send_on s key chunk fin none none none =
      release_outbound_admission api m s (outbound_payload_units (chunk_remaining_len chunk) fin)

  -- `StreamClose`: what waits is dropped, and its units are released.
  abbrev pub drop_stream : Server api → StreamKey → ℕ → Pushed api
  drop_stream s (handle, stream) code =
      let (s1, responses) = remove_pending_response api s (handle, stream) in
      let (s2, writes) = remove_pending_write api s1 (handle, stream) in
      let released = responses + writes in
      and_then api (release_outbound_admission api m s2 released)
        (λ s3. (s3, if ltb 0 released then event_reset handle stream code ∷ [] else []))

  -- `CloseSession`: a GOAWAY first, and the close 25 ms later; at once if there is none.
  abbrev pub after_goaway :
      Server api → ℕ → ℕ → List ℕ → ℕ → Http3 api × Result (Unit {0}) Http3NativeError → Server api
  after_goaway s handle code reason now (c, ok u) = record (set_connection api s handle c) {
    pending_session_closes = put ◌==◌ handle (code, reason, now + 25) s.pending_session_closes;
  }
  after_goaway s handle code reason now (c, err e) =
      set_connection api s handle (record c { quiche_conn = api.close c.quiche_conn code reason })

  -- `Shutdown` closes the connections that are neither closed nor draining.
  abbrev pub shut : Http3 api → Http3 api
  shut c =
      if not (api.is_closed c.quiche_conn) && not (api.is_draining c.quiche_conn)
      then record c { quiche_conn = api.close c.quiche_conn 0 server_shutdown }
      else c

  abbrev pub shut_all : List (ℕ × Http3 api) → List (ℕ × Http3 api)
  shut_all [] = []
  shut_all ((handle, c) ∷ rest) = (handle, shut c) ∷ shut_all rest

  -- On the connection with a handle, if there is one.
  abbrev pub on_connection : Server api → Option (Http3 api) → (Http3 api → Pushed api) → Pushed api
  on_connection s none go = (s, [])
  on_connection s (some c) go = go c

  abbrev pub or_release :
      Server api → ℕ → Option (Http3 api) → (Http3 api → Pushed api) → Pushed api
  or_release s units none go = release_outbound_admission api m s units
  or_release s units (some c) go = go c

  -- `SendDatagram`: the connection, and whether it took the datagram.
  abbrev pub sent_datagram : Server api → ℕ → Option (Http3 api) → Chunk → Server api × Bool
  sent_datagram s handle none chunk = (s, false)
  sent_datagram s handle (some c) chunk =
      let (c', answer) = send_datagram_chunk api c chunk in
      (set_connection api s handle c', elim answer [ ok u ↦ true | err e ↦ false ])

  -- True if the loop is to stop.
  unfoldable pub dispatch_command : ℕ → Server api → WorkerCommand Headers → Pushed api × Bool
  dispatch_command now s shutdown = ((record s { connections = shut_all s.connections }, []), true)
  dispatch_command now s (send_response_headers handle stream headers fin) = (
    on_connection s (connection_of api s handle) (λ c.
        after_headers_only s (handle, stream) headers fin (send_response api c stream headers fin)),
    false,
  )
  dispatch_command now s (send_response_body handle stream headers body fin) = (
    or_release s (outbound_payload_units (chunk_remaining_len body) fin)
        (connection_of api s handle)
        (λ c.
          after_headers_with_body s (handle, stream) headers body fin
            (send_response api c stream headers false)),
    false,
  )
  dispatch_command now s (stream_send handle stream chunk fin) = (
    send_on s (handle, stream) chunk fin (find same_key (handle, stream) s.pending_responses)
        (find same_key (handle, stream) s.pending_writes) (connection_of api s handle),
    false,
  )
  dispatch_command now s (stream_read_credit handle stream bytes) = (
    on_connection s (connection_of api s handle)
        (λ c. (set_connection api s handle (add_read_credit api c stream bytes), [])),
    false,
  )
  dispatch_command now s (close_stream handle stream code) = (
    on_connection s (connection_of api s handle) (λ c.
        drop_stream (set_connection api s handle (stream_close api c stream code)) (handle, stream)
          code),
    false,
  )
  dispatch_command now s (trailers handle stream headers) = (
    on_connection s (connection_of api s handle)
        (λ c. (set_connection api s handle (send_trailers api c stream headers).0, [])),
    false,
  )
  dispatch_command now s (close_session handle code reason) = (
    on_connection s (connection_of api s handle)
        (λ c. (after_goaway s handle code reason now (send_goaway api c), [])),
    false,
  )
  dispatch_command now s (datagram handle chunk) =
      let (s1, taken) = sent_datagram s handle (connection_of api s handle) chunk in
      (
        and_then api (release_outbound_admission api m s1 (chunk_remaining_len chunk))
            (λ s2. (s2, reply taken ∷ [])),
        false,
      )
