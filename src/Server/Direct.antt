-- ===== src/Server/Direct.antt =====
-- `queue_stream_send` and `close_stream` of src/worker.rs, the calls of a host without a command
-- channel: they return the units, where a command releases them.
use http.Admission.Gate.{release_alone}
use http.Error.{Http3NativeError}
use http.PendingWrite.{PendingWrite, SendOutcome}
use http.PendingWrite.Response.{PendingResponse}
use http.ArcBuf.{chunk_remaining_len, ArcBuf, Chunk}
use http.Admission.{outbound_payload_units, accepted_outbound_payload_units, AdmissionWatermarks}
use http.Common.{
  ◌≡◌, ltb, put, ◌||◌, if◌then◌else◌, is_some, ◌+◌, find, Result, Option, Bool, List, none, some,
  true, refl, ℕ, ◌∷◌, [], ok, err,
}
use http.Server.Commands.{after_body, keep_remainder, send_on, dispatch_command}
use http.Server.{
  insert_pending_write, Server, StreamKey, ServerEvent, same_key, set_connection, connection_of,
  add_chunk, push_body_chunk, emit_h3_send_error_and_reset, event_reset, event_handle,
  release_units, release_outbound_admission, stream_send, remove_pending_response,
  remove_pending_write,
}
use http.H3Connection.Sends.{send_body_chunk}
use http.H3Connection.{stream_close, H3Api, Http3}

module _ (api : H3Api) (m : AdmissionWatermarks) where
  -- The handler, the events and the units.
  abbrev pub Direct : Type 0
  Direct = Server api × List ServerEvent × ℕ

  abbrev pub with_units : ℕ → Server api × List ServerEvent → Direct
  with_units units (s, events) = (s, events, units)

  abbrev pub queue_body :
      Server api → StreamKey → ℕ → Bool → Http3 api × Result SendOutcome Http3NativeError → Direct
  queue_body s key len fin (c, ok o) =
      with_units (accepted_outbound_payload_units len fin o.written o.fin_accepted)
        (keep_remainder api m (set_connection api s key.0 c) key o.remainder fin)
  queue_body s key len fin (c, err e) =
      with_units (outbound_payload_units len fin) (emit_h3_send_error_and_reset api s c key.0 key.1)

  abbrev pub queue_on :
      Server api
      → StreamKey
      → Chunk
      → Bool
      → Option (PendingResponse api.Headers)
      → Option PendingWrite
      → Option (Http3 api)
      → Direct
  queue_on s key chunk fin (some r) write conn = (
    record s {
      pending_responses = put same_key key (push_body_chunk r chunk fin) s.pending_responses;
    },
    [],
    0,
  )
  queue_on s key chunk fin none (some pw) conn = (
    record s { pending_writes = put same_key key (add_chunk pw chunk fin) s.pending_writes },
    [],
    0,
  )
  queue_on s key chunk fin none none none = (s, [], 0)
  queue_on s key chunk fin none none (some c) =
      queue_body s key (chunk_remaining_len chunk) fin (send_body_chunk api c key.1 chunk fin)

  unfoldable pub queue_stream_send : Server api → ℕ → ℕ → Chunk → Bool → Direct
  queue_stream_send s handle stream chunk fin =
      queue_on s (handle, stream) chunk fin (find same_key (handle, stream) s.pending_responses)
        (find same_key (handle, stream) s.pending_writes) (connection_of api s handle)

  -- `close_stream`, under the handle that the application knows.
  abbrev pub close_on : Server api → ℕ → ℕ → ℕ → Option (Http3 api) → Direct
  close_on s handle stream code none = (s, [], 0)
  close_on s handle stream code (some c) =
      let s0 = set_connection api s handle (stream_close api c stream code) in
      let (s1, responses) = remove_pending_response api s0 (handle, stream) in
      let (s2, writes) = remove_pending_write api s1 (handle, stream) in
      let released = responses + writes in
      (
        s2,
        if ltb 0 released then event_reset (event_handle api s handle) stream code ∷ [] else [],
        released,
      )

  unfoldable pub direct_close_stream : Server api → ℕ → ℕ → ℕ → Direct
  direct_close_stream s handle stream code =
      close_on s handle stream code (connection_of api s handle)

  -- The handler after its units were released.
  abbrev pub settled : Direct → Server api
  settled (s, events, units) = record s { admission = (release_units api m s.admission units).0 }

  abbrev pub units_returned : Direct → ℕ
  units_returned (s, events, units) = units

  body_same :
      (s : Server api) (c : Http3 api) (key : StreamKey) (len : ℕ) (fin : Bool) (o : SendOutcome)
      (remainder : Option ArcBuf)
      → let s1 = set_connection api s key.0 c in
        let units = accepted_outbound_payload_units len fin o.written o.fin_accepted in
        settled (with_units units (keep_remainder api m s1 key remainder fin))
        ≡ (keep_remainder api m (release_outbound_admission api m s1 units).0 key remainder fin).0
  unfolding release_outbound_admission insert_pending_write
  body_same s c key len fin o none = refl
  body_same s c key len fin o (some rest) = refl

  sent_same :
      (s : Server api) (key : StreamKey) (len : ℕ) (fin : Bool)
      (r : Http3 api × Result SendOutcome Http3NativeError)
      → settled (queue_body s key len fin r) ≡ (after_body api m s key len fin r).0
  unfolding release_outbound_admission emit_h3_send_error_and_reset
  sent_same s key len fin (c, ok o) = body_same s c key len fin o o.remainder
  sent_same s key len fin (c, err e) = refl

  on_same :
      (s : Server api) (key : StreamKey) (chunk : Chunk) (fin : Bool)
      (response : Option (PendingResponse api.Headers)) (write : Option PendingWrite)
      (conn : Option (Http3 api))
      → (is_some response || is_some write || is_some conn) ≡ true
      → settled (queue_on s key chunk fin response write conn)
        ≡ (send_on api m s key chunk fin response write conn).0
  unfolding release_units release_alone
  on_same s key chunk fin (some r) write conn h = refl
  on_same s key chunk fin none (some pw) conn h = refl
  on_same s key chunk fin none none (some c) h =
      sent_same s key (chunk_remaining_len chunk) fin (send_body_chunk api c key.1 chunk fin)
  on_same s key chunk fin none none none h = absurd (cc)

  -- The direct call and the command do the same: if the stream has a connection or something that
  -- waits, the handler after the call, with the returned units released, is the handler after the
  -- command.
  pub queue_stream_send-dispatch :
      (now : ℕ) (s : Server api) (handle stream : ℕ) (chunk : Chunk) (fin : Bool)
      → (is_some (find same_key (handle, stream) s.pending_responses)
          || is_some (find same_key (handle, stream) s.pending_writes)
          || is_some (connection_of api s handle))
        ≡ true
      → settled (queue_stream_send s handle stream chunk fin)
        ≡ (dispatch_command api m now s (stream_send handle stream chunk fin)).0.0
  unfolding queue_stream_send dispatch_command
  queue_stream_send-dispatch now s handle stream chunk fin h =
      on_same s (handle, stream) chunk fin _ _ (connection_of api s handle) h
