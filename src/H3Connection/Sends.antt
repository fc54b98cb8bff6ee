-- ===== src/H3Connection/Sends.antt =====
-- The sends of src/connection.rs.
use http.Error.{quiche, h3, Http3NativeError}
use http.ArcBuf.{from_chunk, Chunk, ArcBuf}
use http.Common.{
  ◌||◌, elem, ◌&&◌, not, saturating_add, ◌==◌, ltb, if◌then◌else◌, Result, Option, Bool, none, some,
  true, false, ℕ, ok, err,
}
use http.H3Connection.{
  capacity_code, h3_code, goaway_id, not_initialized, CapacityError, H3Error, H3Api, Http3, Sending,
  block, required, h3_done, h3_other, stream_blocked,
}
use http.QuicConnection.{set_insert, nothing_sent}

module _ (api : H3Api) where
  open api use {Conn, H3, Headers}

  abbrev pub join : Http3 api → H3 → Conn → Http3 api
  join c h q = record c { quiche_conn = q; h3_conn = some h }

  -- A FIN alone, after quiche answered.
  abbrev pub after_fin : Http3 api → ℕ → ArcBuf → H3 × Conn × Result ℕ H3Error → Sending api
  after_fin c id buf (h, q, ok written) =
      (join c h q, ok (record { written = written; fin_accepted = true; remainder = none }))
  after_fin c id buf (h, q, err h3_done) = (block api (join c h q) id, ok (nothing_sent (some buf)))
  after_fin c id buf (h, q, err stream_blocked) = (join c h q, err (h3 (h3_code stream_blocked)))
  after_fin c id buf (h, q, err (h3_other code)) = (join c h q, err (h3 (h3_code (h3_other code))))

  -- The zero-copy send, after quiche answered and left `rest` in the buffer.
  abbrev pub after_zc :
      Http3 api → ℕ → ℕ → Bool → H3 × Conn × ArcBuf × Result ℕ H3Error → Sending api
  after_zc c id data_len fin (h, q, rest, ok written) =
      if ltb written data_len
      then (
        block api (join c h q) id,
        ok (record { written = written; fin_accepted = false; remainder = some rest }),
      )
      else (join c h q, ok (record { written = written; fin_accepted = fin; remainder = none }))
  after_zc c id data_len fin (h, q, rest, err h3_done) =
      (block api (join c h q) id, ok (nothing_sent (some rest)))
  after_zc c id data_len fin (h, q, rest, err stream_blocked) =
      (join c h q, err (h3 (h3_code stream_blocked)))
  after_zc c id data_len fin (h, q, rest, err (h3_other code)) =
      (join c h q, err (h3 (h3_code (h3_other code))))

  -- The part after the check of the capacity.
  abbrev pub send_now : Http3 api → H3 → ℕ → ArcBuf → Bool → Sending api
  send_now c h id buf fin =
      if buf.len == 0
      then if not fin
        then (c, ok (nothing_sent none))
        else after_fin c id buf (api.send_body h c.quiche_conn id)
      else after_zc c id buf.len fin (api.send_body_zc h c.quiche_conn id buf fin)

  -- The capacity is asked for only if there is something to send, and must do for the frame's header
  -- and a byte of payload.
  abbrev pub if_capacity : Http3 api → H3 → ℕ → ArcBuf → Bool → Result ℕ CapacityError → Sending api
  if_capacity c h id buf fin (err e) = (c, err (quiche (capacity_code e)))
  if_capacity c h id buf fin (ok capacity) =
      if ltb capacity (required buf.len)
      then (block api c id, ok (nothing_sent (some buf)))
      else send_now c h id buf fin

  abbrev pub send_over : Http3 api → Option H3 → ℕ → ArcBuf → Bool → Sending api
  send_over c none id buf fin = (c, err not_initialized)
  send_over c (some h) id buf fin =
      if (buf.len == 0) && fin && elem id c.trailer_fin_streams
      then (c, ok (record { written = 0; fin_accepted = true; remainder = none }))
      else if ltb 0 buf.len || fin
      then if_capacity c h id buf fin (api.stream_capacity c.quiche_conn id)
      else send_now c h id buf fin

  unfoldable pub send_body_arcbuf : Http3 api → ℕ → ArcBuf → Bool → Sending api
  send_body_arcbuf c id buf fin = send_over c c.h3_conn id buf fin

  unfoldable pub send_body_chunk : Http3 api → ℕ → Chunk → Bool → Sending api
  send_body_chunk c id chunk fin = send_body_arcbuf c id (from_chunk chunk) fin

  -- `send_response` and `send_trailers`.
  abbrev pub after_headers :
      Http3 api → H3 × Conn × Result (Unit {0}) H3Error → Http3 api × Result (Unit {0}) H3Error
  after_headers c (h, q, reply) = (join c h q, reply)

  abbrev pub h3_error {ℓ} : {A : Type ℓ} → Result A H3Error → Result A Http3NativeError
  h3_error (ok a) = ok a
  h3_error (err e) = err (h3 (h3_code e))

  abbrev pub response_over :
      Http3 api → Option H3 → ℕ → Headers → Bool → Http3 api × Result (Unit {0}) Http3NativeError
  response_over c none id headers fin = (c, err not_initialized)
  response_over c (some h) id headers fin =
      let (c', reply) = after_headers c (api.send_response h c.quiche_conn id headers fin) in
      (c', h3_error reply)

  unfoldable pub send_response :
      Http3 api → ℕ → Headers → Bool → Http3 api × Result (Unit {0}) Http3NativeError
  send_response c id headers fin = response_over c c.h3_conn id headers fin

  abbrev pub after_trailers :
      Http3 api
      → ℕ
      → H3 × Conn × Result (Unit {0}) H3Error
      → Http3 api × Result (Unit {0}) Http3NativeError
  after_trailers c id (h, q, ok u) =
      (record (join c h q) { trailer_fin_streams = set_insert id c.trailer_fin_streams }, ok u)
  after_trailers c id (h, q, err e) = (join c h q, err (h3 (h3_code e)))

  abbrev pub trailers_over :
      Http3 api → Option H3 → ℕ → Headers → Http3 api × Result (Unit {0}) Http3NativeError
  trailers_over c none id headers = (c, err not_initialized)
  trailers_over c (some h) id headers =
      after_trailers c id (api.send_additional_headers h c.quiche_conn id headers)

  unfoldable pub send_trailers :
      Http3 api → ℕ → Headers → Http3 api × Result (Unit {0}) Http3NativeError
  send_trailers c id headers = trailers_over c c.h3_conn id headers

  -- A request that is blocked waits under the id that it will have.
  abbrev pub after_request :
      Http3 api → H3 × Conn × Result ℕ H3Error → Http3 api × Result ℕ Http3NativeError
  after_request c (h, q, ok id) =
      (record (join c h q) { next_client_request_stream_id_hint = saturating_add id 4 }, ok id)
  after_request c (h, q, err stream_blocked) = (
    block api (join c h q) c.next_client_request_stream_id_hint,
    err (h3 (h3_code stream_blocked)),
  )
  after_request c (h, q, err h3_done) = (join c h q, err (h3 (h3_code h3_done)))
  after_request c (h, q, err (h3_other code)) = (join c h q, err (h3 (h3_code (h3_other code))))

  abbrev pub request_over :
      Http3 api → Option H3 → Headers → Bool → Http3 api × Result ℕ Http3NativeError
  request_over c none headers fin = (c, err not_initialized)
  request_over c (some h) headers fin =
      after_request c (api.send_request h c.quiche_conn headers fin)

  unfoldable pub send_request : Http3 api → Headers → Bool → Http3 api × Result ℕ Http3NativeError
  send_request c headers fin = request_over c c.h3_conn headers fin

  abbrev pub goaway_over : Http3 api → Option H3 → Http3 api × Result (Unit {0}) Http3NativeError
  goaway_over c none = (c, err not_initialized)
  goaway_over c (some h) =
      let (c', reply) =
        after_headers c
          (api.send_goaway h c.quiche_conn (goaway_id c.largest_accepted_request_id)) in
      (c', h3_error reply)

  unfoldable pub send_goaway : Http3 api → Http3 api × Result (Unit {0}) Http3NativeError
  send_goaway c = goaway_over c c.h3_conn

  -- A datagram is sent at once or refused; there is no queue of its own.
  abbrev pub after_datagram :
      Http3 api → Conn × Result (Unit {0}) ℕ → Http3 api × Result (Unit {0}) Http3NativeError
  after_datagram c (q, ok u) = (record c { quiche_conn = q }, ok u)
  after_datagram c (q, err e) = (record c { quiche_conn = q }, err (quiche e))

  unfoldable pub send_datagram_chunk :
      Http3 api → Chunk → Http3 api × Result (Unit {0}) Http3NativeError
  send_datagram_chunk c chunk =
      if api.is_dgram_send_queue_full c.quiche_conn
      then (c, err (quiche 0))
      else after_datagram c (api.dgram_send_buf c.quiche_conn (from_chunk chunk))
