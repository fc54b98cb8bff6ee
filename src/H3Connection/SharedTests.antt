-- ===== src/H3Connection/SharedTests.antt =====
-- A quiche for tests: its state is the streams that are writable; stream 4 has no capacity, stream 8
-- was stopped, stream 12 is closed, headers for stream 16 are blocked, and a body send takes at most
-- two bytes.
use http.ArcBuf.{ArcBuf}
use http.Pool.Adaptive.{AdaptiveBufferPool}
use http.Common.{
  leb, ◌-◌, min, ◌+◌, length, ◌==◌, if◌then◌else◌, Option, Result, List, none, some, false, refl, ℕ,
  ◌∷◌, [], arith, ok, err,
}
use http.H3Connection.{
  H3Api, H3Connection, SendsBody, Writables, stream_stopped, CapacityError, H3Error, stream_blocked,
}

abbrev writable_next : List ℕ → List ℕ × Option ℕ
writable_next [] = ([], none)
writable_next (id ∷ ids) = (ids, some id)

abbrev capacity : ℕ → Result ℕ CapacityError
capacity id = if id == 4 then ok 0 else if id == 8 then err (stream_stopped 7) else ok 5

abbrev answer_headers : ℕ → Result (Unit {0}) H3Error
answer_headers id = if id == 16 then err stream_blocked else ok tt

-- A complete write leaves the buffer as it is.
abbrev left_of : ArcBuf → ArcBuf
left_of buf =
    if leb buf.len 2 then buf else record buf { offset = buf.offset + 2; len = buf.len - 2 }

abbrev pub toy : H3Api
toy = record {
  Conn = List ℕ;
  H3 = Unit {0};
  Headers = ℕ;
  stream_capacity = λ q id. capacity id;
  is_closed = λ q. false;
  is_draining = λ q. false;
  close = λ q code reason. q;
  stream_closed = λ q id. id == 12;
  stream_shutdown = λ q id read code. q;
  stream_writable_next = writable_next;
  writable_len = length;
  is_dgram_send_queue_full = λ q. false;
  dgram_send_buf = λ q buf. (q, ok tt);
  send_request = λ h q headers fin. (h, q, ok 0);
  send_response = λ h q id headers fin. (h, q, answer_headers id);
  send_additional_headers = λ h q id headers. (h, q, ok tt);
  send_body = λ h q id. (h, q, ok 0);
  send_body_zc = λ h q id buf fin. (h, q, left_of buf, ok (min buf.len 2));
  send_goaway = λ h q id. (h, q, ok tt);
}

pub toy-SendsBody : SendsBody toy
toy-SendsBody h q id buf fin p l = ground arith

pub toy-Writables : Writables toy
toy-Writables [] = refl
toy-Writables (id ∷ ids) = refl

abbrev no_buffers : AdaptiveBufferPool
no_buffers = record { buffers = []; max_buffers = 4; min_capacity = 1; max_retain_capacity = 100 }

-- Streams 4, 8 and 12 wait for capacity, and quiche reports 8 and 20 as writable.
abbrev pub connection : H3Connection (List ℕ) (Unit {0})
connection = record {
  quiche_conn = 8 ∷ 20 ∷ [];
  h3_conn = some tt;
  blocked = record { queue = 4 ∷ 8 ∷ 12 ∷ []; set = 12 ∷ 8 ∷ 4 ∷ [] };
  read_credit = (0, 90) ∷ (4, 10) ∷ [];
  pending_readable = [];
  pending_body_data = [];
  data_pool = no_buffers;
  shared_pool = [];
  trailer_fin_streams = [];
  stream_read_window = some 100;
  largest_accepted_request_id = some 8;
  next_client_request_stream_id_hint = 12;
}
