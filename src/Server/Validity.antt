-- ===== src/Server/Validity.antt =====
-- Well-formed chunks under `dispatch_command` and `reap_closed_connections` of src/worker.rs.
use http.Error.{Http3NativeError}
use http.Admission.{accepted_outbound_payload_units, outbound_payload_units, AdmissionWatermarks}
use http.H3Connection.Sends.{send_goaway, send_response}
use http.H3Connection.{stream_close, Http3, H3Api}
use http.ArcBuf.{chunk_remaining_len, from_chunk, ArcBuf, Chunk}
use http.PendingWrite.{SendOutcome, PendingWrite, set_fin, push_chunk}
use http.Common.{
  find-All, ◌==◌, ◌≡◌, ltb, find, Result, Bool-cases, ◌++◌, All, erase-All, put-All, Option, ◌<◌,
  Bool, List, inl, inr, none, some, true, false, refl, ℕ, ◌∷◌, [], arith, ok, err,
}
use http.Server.Flushed.{Valid}
use http.Server.Flush.{reap, reap_all, reap_closed_connections, without_connection, closed_handles}
use http.Server.Commands.{
  after_body, keep_remainder, after_headers_only, after_headers_with_body, send_on, drop_stream,
  after_goaway, on_connection, or_release, sent_datagram, dispatch_command, is_h3_stream_blocked,
}
use http.Server.{
  set_connection, connection_of, same_key, StreamKey, Server, Pushed, insert_pending_write,
  insert_pending_response, emit_h3_send_error_and_reset, add_chunk, push_body_chunk, push_body,
  WorkerCommand, stream_send, send_response_headers, send_response_body, stream_read_credit,
  close_stream, trailers, close_session, datagram, shutdown, with_body, headers_only,
  remove_pending_response, remove_pending_write, release_outbound_admission,
}
use http.PendingWrite.Units.{IsValid, Filled}
use http.PendingWrite.Response.{PendingResponse, BodyValid}

append-Filled : (bs : List ArcBuf) (b : ArcBuf) → Filled bs → 0 < b.len → Filled (bs ++ (b ∷ []))
append-Filled [] b f p = (p, tt)
append-Filled (x ∷ xs) b f p = (f.0, append-Filled xs b f.1 p)

append-IsValid : (bs : List ArcBuf) (b : ArcBuf) → IsValid bs → 0 < b.len → IsValid (bs ++ (b ∷ []))
append-IsValid [] b v p = tt
append-IsValid (x ∷ xs) b v p = append-Filled xs b v p

push_chunk-IsValid :
    (pw : PendingWrite) (chunk : Chunk) → IsValid pw.chunks → IsValid (push_chunk pw chunk).0.chunks
unfolding push_chunk from_chunk chunk_remaining_len
push_chunk-IsValid pw chunk v = elim (Bool-cases (ltb 0 (chunk_remaining_len chunk))) [
  | inl e ↦ rw e (append-IsValid pw.chunks (from_chunk chunk) v (ground (arith, e)))
  | inr e ↦ rw e v
]

add_chunk-IsValid :
    (pw : PendingWrite) (chunk : Chunk) (fin : Bool)
    → IsValid pw.chunks
    → IsValid (add_chunk pw chunk fin).chunks
unfolding set_fin
add_chunk-IsValid pw chunk true v = push_chunk-IsValid pw chunk v
add_chunk-IsValid pw chunk false v = push_chunk-IsValid pw chunk v

push_body-Valid :
    {Headers : Type 0} (r : PendingResponse Headers) (chunk : Chunk) (fin : Bool)
    (body : Option PendingWrite)
    → BodyValid body
    → BodyValid (push_body r chunk fin body).body
push_body-Valid r chunk fin none v = tt
push_body-Valid r chunk fin (some pw) v = add_chunk-IsValid pw chunk fin v

module _ (api : H3Api) (m : AdmissionWatermarks) where
  abbrev WriteValid : StreamKey × PendingWrite → Type 0
  WriteValid e = IsValid e.1.chunks

  abbrev ResponseValid : StreamKey × PendingResponse api.Headers → Type 0
  ResponseValid e = BodyValid e.1.body

  release-Valid :
      (s : Server api) (units : ℕ)
      → Valid api s
      → Valid api (release_outbound_admission api m s units).0
  unfolding release_outbound_admission
  release-Valid s units v = v

  error-Valid :
      (s : Server api) (c : Http3 api) (handle stream : ℕ)
      → Valid api s
      → Valid api (emit_h3_send_error_and_reset api s c handle stream).0
  unfolding emit_h3_send_error_and_reset
  error-Valid s c handle stream v = v

  keep-Valid :
      (s : Server api) (key : StreamKey) (rest : Option ArcBuf) (fin : Bool)
      → Valid api s
      → Valid api (keep_remainder api m s key rest fin).0
  unfolding insert_pending_write
  keep-Valid s key none fin v = v
  keep-Valid s key (some rest) fin v =
      (put-All same_key WriteValid key _ s.pending_writes (λ j. tt) v.0, v.1)

  after_body-Valid :
      (s : Server api) (key : StreamKey) (len : ℕ) (fin : Bool)
      (r : Http3 api × Result SendOutcome Http3NativeError)
      → Valid api s
      → Valid api (after_body api m s key len fin r).0
  after_body-Valid s key len fin (c, ok o) v = keep-Valid _ key o.remainder fin (
      release-Valid (set_connection api s key.0 c)
        (accepted_outbound_payload_units len fin o.written o.fin_accepted) v)
  after_body-Valid s key len fin (c, err e) v =
      error-Valid _ c key.0 key.1 (release-Valid s (outbound_payload_units len fin) v)

  response-Valid :
      (s : Server api) (key : StreamKey) (r : PendingResponse api.Headers)
      → BodyValid r.body
      → Valid api s
      → Valid api (insert_pending_response api s key r)
  unfolding insert_pending_response
  response-Valid s key r b v =
      (v.0, put-All same_key ResponseValid key r s.pending_responses (λ j. b) v.1)

  headers_only-Valid :
      (s : Server api) (key : StreamKey) (headers : api.Headers) (fin : Bool)
      (r : Http3 api × Result (Unit {0}) Http3NativeError)
      → Valid api s
      → Valid api (after_headers_only api m s key headers fin r).0
  unfolding headers_only
  headers_only-Valid s key headers fin (c, ok u) v = v
  headers_only-Valid s key headers fin (c, err e) v =
      elim (Bool-cases (is_h3_stream_blocked api m e)) [
        | inl b ↦ rw b (response-Valid (set_connection api s key.0 c) key _ tt v)
        | inr b ↦ rw b (error-Valid s c key.0 key.1 v)
      ]

  with_body-Valid :
      (s : Server api) (key : StreamKey) (headers : api.Headers) (body : Chunk) (fin : Bool)
      (r : Http3 api × Result (Unit {0}) Http3NativeError)
      → Valid api s
      → Valid api (after_headers_with_body api m s key headers body fin r).0
  unfolding with_body
  with_body-Valid s key headers body fin (c, ok u) v = after_body-Valid s key _ fin _ v
  with_body-Valid s key headers body fin (c, err e) v =
      elim (Bool-cases (is_h3_stream_blocked api m e)) [
        | inl b ↦ rw b (response-Valid (set_connection api s key.0 c) key _ tt v)
        | inr b ↦ rw b (
            error-Valid _ c key.0 key.1
              (release-Valid s (outbound_payload_units (chunk_remaining_len body) fin) v))
      ]

  send_on-Valid :
      (s : Server api) (key : StreamKey) (chunk : Chunk) (fin : Bool)
      (response : Option (PendingResponse api.Headers)) (write : Option PendingWrite)
      (conn : Option (Http3 api))
      → find same_key key s.pending_responses ≡ response
      → find same_key key s.pending_writes ≡ write
      → Valid api s
      → Valid api (send_on api m s key chunk fin response write conn).0
  unfolding push_body_chunk
  send_on-Valid s key chunk fin (some r) write conn e f v = (
    v.0,
    put-All same_key ResponseValid key _ s.pending_responses
        (λ j. push_body-Valid r chunk fin r.body (
          find-All same_key ResponseValid (λ r. BodyValid r.body) key r s.pending_responses
            (λ e h. h) v.1 e))
        v.1,
  )
  send_on-Valid s key chunk fin none (some pw) conn e f v = (
    put-All same_key WriteValid key _ s.pending_writes
        (λ j. add_chunk-IsValid pw chunk fin (
          find-All same_key WriteValid (λ w. IsValid w.chunks) key pw s.pending_writes (λ e h. h)
            v.0 f))
        v.0,
    v.1,
  )
  send_on-Valid s key chunk fin none none (some c) e f v = after_body-Valid s key _ fin _ v
  send_on-Valid s key chunk fin none none none e f v = release-Valid s _ v

  drop_stream-Valid :
      (s : Server api) (handle stream code : ℕ)
      → Valid api s
      → Valid api (drop_stream api m s (handle, stream) code).0
  unfolding remove_pending_response remove_pending_write
  drop_stream-Valid s handle stream code v = release-Valid _ _ (
    erase-All same_key WriteValid (handle, stream) s.pending_writes v.0,
    erase-All same_key ResponseValid (handle, stream) s.pending_responses v.1,
  )

  on_connection-Valid :
      (s : Server api) (conn : Option (Http3 api)) (go : Http3 api → Pushed api)
      → Valid api s
      → ((c : Http3 api) → Valid api (go c).0)
      → Valid api (on_connection api m s conn go).0
  on_connection-Valid s none go v k = v
  on_connection-Valid s (some c) go v k = k c

  goaway-Valid :
      (s : Server api) (handle code : ℕ) (reason : List ℕ) (now : ℕ)
      (r : Http3 api × Result (Unit {0}) Http3NativeError)
      → Valid api s
      → Valid api (after_goaway api m s handle code reason now r)
  goaway-Valid s handle code reason now (c, ok u) v = v
  goaway-Valid s handle code reason now (c, err e) v = v

  datagram-Valid :
      (s : Server api) (handle : ℕ) (conn : Option (Http3 api)) (chunk : Chunk)
      → Valid api s
      → Valid api (sent_datagram api m s handle conn chunk).0
  datagram-Valid s handle none chunk v = v
  datagram-Valid s handle (some c) chunk v = v

  -- No command breaks the chunks of what waits: only the first chunk of a write may be empty.
  pub dispatch_command-Valid :
      (now : ℕ) (s : Server api) (cmd : WorkerCommand api.Headers)
      → Valid api s
      → Valid api (dispatch_command api m now s cmd).0.0
  unfolding dispatch_command
  dispatch_command-Valid now s (send_response_headers handle stream headers fin) v =
      on_connection-Valid s (connection_of api s handle) _ v (λ c.
        headers_only-Valid s (handle, stream) headers fin (send_response api c stream headers fin)
          v)
  dispatch_command-Valid now s (send_response_body handle stream headers body fin) v =
      by_connection (connection_of api s handle)
    where
      by_connection :
          (conn : Option (Http3 api))
          → Valid api
              (or_release api m s (outbound_payload_units (chunk_remaining_len body) fin) conn (λ c.
                after_headers_with_body api m s
                  (handle, stream)
                  headers
                  body
                  fin
                  (send_response api c stream headers false))).0
      by_connection none = release-Valid s _ v
      by_connection (some c) =
          with_body-Valid s (handle, stream) headers body fin
            (send_response api c stream headers false) v
  dispatch_command-Valid now s (stream_send handle stream chunk fin) v =
      send_on-Valid s (handle, stream) chunk fin _ _ (connection_of api s handle) refl refl v
  dispatch_command-Valid now s (stream_read_credit handle stream bytes) v =
      on_connection-Valid s (connection_of api s handle) _ v (λ c. v)
  dispatch_command-Valid now s (close_stream handle stream code) v =
      on_connection-Valid s (connection_of api s handle) _ v (λ c.
        drop_stream-Valid (set_connection api s handle (stream_close api c stream code)) handle
          stream code v)
  dispatch_command-Valid now s (trailers handle stream headers) v =
      on_connection-Valid s (connection_of api s handle) _ v (λ c. v)
  dispatch_command-Valid now s (close_session handle code reason) v =
      on_connection-Valid s (connection_of api s handle) _ v
        (λ c. goaway-Valid s handle code reason now (send_goaway api c) v)
  dispatch_command-Valid now s (datagram handle chunk) v =
      release-Valid _ _ (datagram-Valid s handle (connection_of api s handle) chunk v)
  dispatch_command-Valid now s shutdown v = v

  without-All :
      {V : Type 0} (P : StreamKey × V → Type 0) (handle : ℕ) (xs : List (StreamKey × V))
      → All P xs
      → All P (without_connection api m handle xs)
  without-All P handle [] a = tt
  without-All P handle ((key, w) ∷ rest) a = elim (Bool-cases (key.0 == handle)) [
    | inl e ↦ rw e (without-All P handle rest a.1)
    | inr e ↦ rw e (a.0, without-All P handle rest a.1)
  ]

  reap_all-Valid :
      (s : Server api) (handles : List ℕ) → Valid api s → Valid api (reap_all api m s handles).0
  reap_all-Valid s [] v = v
  reap_all-Valid s (handle ∷ handles) v = reap_all-Valid (reap api m s handle).0 handles (
      release-Valid _ _ (
        without-All WriteValid handle s.pending_writes v.0,
        without-All ResponseValid handle s.pending_responses v.1,
      ))

  pub reap_closed-Valid :
      (s : Server api) → Valid api s → Valid api (reap_closed_connections api m s).0
  unfolding reap_closed_connections
  reap_closed-Valid s v = reap_all-Valid _ (closed_handles api m s.connections) v
