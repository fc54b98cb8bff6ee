-- ===== src/Server/Dispatch.antt =====
-- The account of `dispatch_command` of src/worker.rs with the write admission.
use http.H3Connection.Exact.{send_body_arcbuf-Sent}
use http.Error.{Http3NativeError}
use http.Server.Chunks.{push_body_chunk-units, new-units, add_chunk-units, MayPush, lone_fin-units}
use http.Server.Ledger.{
  error-Owes, pending_response-Owes, release-Owes, released, after_body-Owes, Owes,
}
use http.Server.Commands.{
  is_h3_stream_blocked, after_goaway, after_headers_with_body, after_headers_only, sent_datagram,
  or_release, on_connection, drop_stream, send_on, send_body_on, dispatch_command,
}
use http.H3Connection.Sends.{send_goaway, send_response, send_body_chunk}
use http.PendingWrite.Response.{PendingResponse}
use http.Admission.{AdmissionWatermarks, outbound_payload_units}
use http.ArcBuf.{Chunk, chunk_remaining_len, from_chunk}
use http.H3Connection.{stream_close, Http3, SendsBody, H3Api}
use http.PendingWrite.{queued_units, sum_len, PendingWrite}
use http.Common.{
  total-erase, err, units_of, if◌then◌else◌, ok, total-put, Result, find, refl, ap, inr, inl, ltb,
  Bool-cases, ◌+◌, ◌<◌, ◌≡◌, Option, Bool, List, none, some, true, false, ℕ, ◌∷◌, [], arith,
}
use http.Server.{
  reply, shutdown, datagram, close_session, trailers, emit_h3_send_error_and_reset, set_connection,
  close_stream, event_reset, stream_read_credit, response_units, connection_of,
  worker_command_outbound_bytes, Pushed, remove_pending_write, remove_pending_response, with_body,
  headers_only, StreamKey, stream_send, send_response_body, same_key, send_response_headers,
  WorkerCommand, Server, push_body_chunk, add_chunk,
}

module _ (api : H3Api) where
  -- What a command finds at its stream, for its units to be accounted for: a response begins where
  -- nothing waits, and a chunk goes where it may follow.
  abbrev pub Waiting :
      Option (PendingResponse api.Headers) → Option PendingWrite → ℕ → Bool → Type 0
  Waiting (some r) write len fin = MayPush r.body len fin
  Waiting none write len fin = MayPush write len fin

  abbrev pub Fresh : Server api → WorkerCommand api.Headers → Type 0
  Fresh s (send_response_headers handle stream headers fin) =
      find same_key (handle, stream) s.pending_responses ≡ none
  Fresh s (send_response_body handle stream headers body fin) =
      (find same_key (handle, stream) s.pending_responses ≡ none)
      × (find same_key (handle, stream) s.pending_writes ≡ none)
  Fresh s (stream_send handle stream chunk fin) =
      Waiting (find same_key (handle, stream) s.pending_responses)
        (find same_key (handle, stream) s.pending_writes) (chunk_remaining_len chunk) fin
  Fresh s _ = Unit {0}

  module _ (sends_body : SendsBody api) (m : AdmissionWatermarks) where
    send_body_on-Owes :
        (s : Server api) (key : StreamKey) (c : Http3 api) (chunk : Chunk) (fin : Bool) (n : ℕ)
        → find same_key key s.pending_writes ≡ none
        → Owes api s (outbound_payload_units (chunk_remaining_len chunk) fin + n)
        → Owes api (send_body_on api m s key c chunk fin).0 n
    unfolding send_body_chunk from_chunk chunk_remaining_len
    send_body_on-Owes s key c chunk fin n e h =
        after_body-Owes api m s key (chunk_remaining_len chunk) fin n
          (send_body_chunk api c key.1 chunk fin) e
          (send_body_arcbuf-Sent api sends_body c key.1 (from_chunk chunk) fin).0 h

    send_on-Owes :
        (s : Server api) (key : StreamKey) (chunk : Chunk) (fin : Bool) (n : ℕ)
        (response : Option (PendingResponse api.Headers)) (write : Option PendingWrite)
        (conn : Option (Http3 api))
        → find same_key key s.pending_responses ≡ response
        → find same_key key s.pending_writes ≡ write
        → Waiting response write (chunk_remaining_len chunk) fin
        → Owes api s (outbound_payload_units (chunk_remaining_len chunk) fin + n)
        → Owes api (send_on api m s key chunk fin response write conn).0 n
    send_on-Owes s key chunk fin n (some r) write conn e f w h = omega (
      arith,
      h,
      push_body_chunk-units r chunk fin w,
      total-put same_key (response_units api) key (push_body_chunk r chunk fin) s.pending_responses,
      ap (units_of same_key (response_units api)) e,
    )
    send_on-Owes s key chunk fin n none (some pw) conn e f w h = omega (
      arith,
      h,
      add_chunk-units pw chunk fin w,
      total-put same_key queued_units key (add_chunk pw chunk fin) s.pending_writes,
      ap (units_of same_key queued_units) f,
    )
    send_on-Owes s key chunk fin n none none (some c) e f w h =
        send_body_on-Owes s key c chunk fin n f h
    send_on-Owes s key chunk fin n none none none e f w h = release-Owes api m s _ n h

    headers_only-Owes :
        (s : Server api) (key : StreamKey) (headers : api.Headers) (fin : Bool) (n : ℕ)
        (r : Http3 api × Result (Unit {0}) Http3NativeError)
        → find same_key key s.pending_responses ≡ none
        → Owes api s n
        → Owes api (after_headers_only api m s key headers fin r).0 n
    unfolding headers_only
    headers_only-Owes s key headers fin n (c, ok u) e h = h
    headers_only-Owes s key headers fin n (c, err er) e h =
        elim (Bool-cases (is_h3_stream_blocked api m er)) [
          | inl b ↦ rw b (
              pending_response-Owes api (set_connection api s key.0 c) key _ n e (omega (arith, h)))
          | inr b ↦ rw b (error-Owes api s c key.0 key.1 n h)
        ]

    with_body-Owes :
        (s : Server api) (key : StreamKey) (headers : api.Headers) (body : Chunk) (fin : Bool)
        (n : ℕ) (r : Http3 api × Result (Unit {0}) Http3NativeError)
        → find same_key key s.pending_responses ≡ none
        → find same_key key s.pending_writes ≡ none
        → Owes api s (outbound_payload_units (chunk_remaining_len body) fin + n)
        → Owes api (after_headers_with_body api m s key headers body fin r).0 n
    unfolding with_body from_chunk chunk_remaining_len
    with_body-Owes s key headers body fin n (c, ok u) e f h =
        send_body_on-Owes s key c body fin n f h
    with_body-Owes s key headers body fin n (c, err er) e f h =
        elim (Bool-cases (is_h3_stream_blocked api m er)) [
          | inl b ↦ rw b (
              pending_response-Owes api (set_connection api s key.0 c) key _ n e
                (omega (arith, h, new-units (from_chunk body) fin)))
          | inr b ↦ rw b (
              released api m s (outbound_payload_units (chunk_remaining_len body) fin) n n
                (λ s'. emit_h3_send_error_and_reset api s' c key.0 key.1) h
                (λ s' h' q. error-Owes api s' c key.0 key.1 n h'))
        ]

    drop_stream-Owes :
        (s : Server api) (handle stream code n : ℕ)
        → Owes api s n
        → Owes api (drop_stream api m s (handle, stream) code).0 n
    unfolding remove_pending_response remove_pending_write
    drop_stream-Owes s handle stream code n h =
        let (s1, responses) = remove_pending_response api s (handle, stream) in
        let (s2, writes) = remove_pending_write api s1 (handle, stream) in
        released api m s2 (responses + writes) n n
          (λ s3.
            (s3, if ltb 0 (responses + writes) then event_reset handle stream code ∷ [] else []))
          (omega (
            arith,
            h,
            total-erase same_key queued_units (handle, stream) s.pending_writes,
            total-erase same_key (response_units api) (handle, stream) s.pending_responses,
          ))
          (λ s3 h' q. h')

    goaway-Owes :
        (s : Server api) (handle code : ℕ) (reason : List ℕ) (now n : ℕ)
        (r : Http3 api × Result (Unit {0}) Http3NativeError)
        → Owes api s n
        → Owes api (after_goaway api m s handle code reason now r) n
    goaway-Owes s handle code reason now n (c, ok u) h = h
    goaway-Owes s handle code reason now n (c, err e) h = h

    on_connection-Owes :
        (s : Server api) (n : ℕ) (conn : Option (Http3 api)) (go : Http3 api → Pushed api)
        → Owes api s n
        → ((c : Http3 api) → Owes api (go c).0 n)
        → Owes api (on_connection api m s conn go).0 n
    on_connection-Owes s n none go h k = h
    on_connection-Owes s n (some c) go h k = k c

    or_release-Owes :
        (s : Server api) (units n : ℕ) (conn : Option (Http3 api)) (go : Http3 api → Pushed api)
        → Owes api s (units + n)
        → ((c : Http3 api) → Owes api (go c).0 n)
        → Owes api (or_release api m s units conn go).0 n
    or_release-Owes s units n none go h k = release-Owes api m s units n h
    or_release-Owes s units n (some c) go h k = k c

    datagram-Owes :
        (s : Server api) (handle : ℕ) (conn : Option (Http3 api)) (chunk : Chunk) (n : ℕ)
        → Owes api s n
        → Owes api (sent_datagram api m s handle conn chunk).0 n
    datagram-Owes s handle none chunk n h = h
    datagram-Owes s handle (some c) chunk n h = h

    -- Every command that finds its stream fresh settles the units that it was admitted for: if the
    -- admission window holds the units of what waits, those of the command and `n` others, it holds
    -- those of what waits afterwards and the `n` others, whether the command was sent, blocked, failed
    -- or found no connection, over a quiche that leaves the unwritten part of a buffer after a partial
    -- write and the whole buffer after `Done`.
    pub dispatch_command-Owes :
        (now : ℕ) (s : Server api) (cmd : WorkerCommand api.Headers) (n : ℕ)
        → Fresh s cmd
        → Owes api s (worker_command_outbound_bytes cmd + n)
        → Owes api (dispatch_command api m now s cmd).0.0 n
    unfolding dispatch_command worker_command_outbound_bytes
    dispatch_command-Owes now s (send_response_headers handle stream headers fin) n f h =
        on_connection-Owes s n (connection_of api s handle) _ (omega (arith, h)) (λ c.
          headers_only-Owes s (handle, stream) headers fin n
            (send_response api c stream headers fin) f (omega (arith, h)))
    dispatch_command-Owes now s (send_response_body handle stream headers body fin) n f h =
        or_release-Owes s _ n (connection_of api s handle) _ h (λ c.
          with_body-Owes s (handle, stream) headers body fin n
            (send_response api c stream headers false) f.0 f.1 h)
    dispatch_command-Owes now s (stream_send handle stream chunk fin) n f h =
        send_on-Owes s (handle, stream) chunk fin n _ _ (connection_of api s handle) refl refl f h
    dispatch_command-Owes now s (stream_read_credit handle stream bytes) n f h =
        on_connection-Owes s n (connection_of api s handle) _ (omega (arith, h))
          (λ c. omega (arith, h))
    dispatch_command-Owes now s (close_stream handle stream code) n f h =
        on_connection-Owes s n (connection_of api s handle) _ (omega (arith, h)) (λ c.
          drop_stream-Owes (set_connection api s handle (stream_close api c stream code)) handle
            stream code n (omega (arith, h)))
    dispatch_command-Owes now s (trailers handle stream headers) n f h =
        on_connection-Owes s n (connection_of api s handle) _ (omega (arith, h))
          (λ c. omega (arith, h))
    dispatch_command-Owes now s (close_session handle code reason) n f h =
        on_connection-Owes s n (connection_of api s handle) _ (omega (arith, h))
          (λ c. goaway-Owes s handle code reason now n (send_goaway api c) (omega (arith, h)))
    dispatch_command-Owes now s (datagram handle chunk) n f h =
        released api m (sent_datagram api m s handle (connection_of api s handle) chunk).0
          (chunk_remaining_len chunk) n n
          (λ s2.
            (s2, reply (sent_datagram api m s handle (connection_of api s handle) chunk).1 ∷ []))
          (datagram-Owes s handle (connection_of api s handle) chunk _ h) (λ s2 h' q. h')
    dispatch_command-Owes now s shutdown n f h = omega (arith, h)

  -- A FIN alone for a stream whose bytes wait in a pending write is not paid for: it is admitted for
  -- one unit, and if the window holds the units of what waits, this one and `n` others, then after
  -- the command it still holds this one and the `n` others beside the units of what waits.
  pub lone_fin_leaks :
      (m : AdmissionWatermarks) (now handle stream : ℕ) (s : Server api) (chunk : Chunk)
      (pw : PendingWrite) (n : ℕ)
      → find same_key (handle, stream) s.pending_responses ≡ none
      → find same_key (handle, stream) s.pending_writes ≡ some pw
      → 0 < sum_len pw.chunks
      → chunk_remaining_len chunk ≡ 0
      → Owes api s (1 + n)
      → let cmd : WorkerCommand api.Headers = stream_send handle stream chunk true in
        (worker_command_outbound_bytes cmd ≡ 1)
        × Owes api (dispatch_command api m now s cmd).0.0 (1 + n)
  unfolding dispatch_command worker_command_outbound_bytes outbound_payload_units
  lone_fin_leaks m now handle stream s chunk pw n e f p z h = (
    ground (arith, z),
    rw (e, f)
        (omega (
          arith,
          h,
          lone_fin-units pw chunk p z,
          total-put same_key queued_units (handle, stream) (add_chunk pw chunk true)
              s.pending_writes,
          ap (units_of same_key queued_units) f,
        )),
  )
