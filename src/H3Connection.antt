-- ===== src/H3Connection.antt =====
-- src/connection.rs: an HTTP/3 connection, which keeps track of its streams around quiche's QUIC and
-- HTTP/3 connections. Counters, logs, traces and the events of received data are left out.
pub mod Sends
pub mod Polls
pub mod Exact
pub mod Loop
pub mod Drains
pub mod Limits
pub mod SharedTests
mod Tests
use http.Pool.RightSized.{RightSizedPool}
use http.Pool.Adaptive.{checkin, AdaptiveBufferPool}
use http.PendingWrite.{SendOutcome}
use http.Pool.{clear, Buffer}
use http.Error.{invalid_state, Http3NativeError}
use http.ArcBuf.{ArcBuf}
use http.Common.{
  ◌<◌, ltb, saturating_add, from_bool, leb, min, ◌≡◌, Bool, List, ◌==◌, ◌+◌, if◌then◌else◌, Option,
  Result, find, erase, put,
}
use http.Common.{none, some, true, false, ℕ, ◌∷◌, [], suc, ok, err}
use http.Blocked.{without, untrack, track, Blocked}

-- `quiche::h3::Error`, as far as the connection tells them apart.
pub data H3Error : Type 0 where
  h3_done : H3Error
  stream_blocked : H3Error
  h3_other : ℕ → H3Error

abbrev pub h3_code : H3Error → ℕ
h3_code h3_done = 0
h3_code stream_blocked = 1
h3_code (h3_other code) = suc (suc code)

-- The error of `quiche::Connection::stream_capacity`: the peer stopped the stream, or another one.
pub data CapacityError : Type 0 where
  stream_stopped : ℕ → CapacityError
  capacity_other : ℕ → CapacityError

abbrev pub capacity_code : CapacityError → ℕ
capacity_code (stream_stopped code) = 0
capacity_code (capacity_other code) = suc code

-- What the connection calls of quiche: `Conn` is a `quiche::Connection`, `H3` the HTTP/3 connection
-- over it. A body send leaves the rest of the buffer in it.
pub record H3Api : Type 1 where
  pub Conn : Type 0
  pub H3 : Type 0
  pub Headers : Type 0
  pub stream_capacity : Conn → ℕ → Result ℕ CapacityError
  pub is_closed : Conn → Bool
  pub is_draining : Conn → Bool
  pub close : Conn → ℕ → List ℕ → Conn
  pub stream_closed : Conn → ℕ → Bool
  pub stream_shutdown : Conn → ℕ → Bool → ℕ → Conn
  pub stream_writable_next : Conn → Conn × Option ℕ
  pub writable_len : Conn → ℕ
  pub is_dgram_send_queue_full : Conn → Bool
  pub dgram_send_buf : Conn → ArcBuf → Conn × Result (Unit {0}) ℕ
  pub send_request : H3 → Conn → Headers → Bool → H3 × Conn × Result ℕ H3Error
  pub send_response : H3 → Conn → ℕ → Headers → Bool → H3 × Conn × Result (Unit {0}) H3Error
  pub send_additional_headers : H3 → Conn → ℕ → Headers → H3 × Conn × Result (Unit {0}) H3Error
  pub send_body : H3 → Conn → ℕ → H3 × Conn × Result ℕ H3Error
  pub send_body_zc : H3 → Conn → ℕ → ArcBuf → Bool → H3 × Conn × ArcBuf × Result ℕ H3Error
  pub send_goaway : H3 → Conn → ℕ → H3 × Conn × Result (Unit {0}) H3Error

-- The documentation of `send_body_zc`: after a partial write the buffer is the part that was not
-- written, and the same after `Done`, which writes nothing. Nothing is said of the buffer after a
-- complete write.
abbrev pub BodyReply : ℕ → ℕ → Result ℕ H3Error → Type 0
BodyReply len left (ok written) = written < len → written + left ≡ len
BodyReply len left (err h3_done) = left ≡ len
BodyReply len left (err stream_blocked) = Unit {0}
BodyReply len left (err (h3_other code)) = Unit {0}

abbrev pub SendsBody : H3Api → Type 0
SendsBody api =
    (h : api.H3) (q : api.Conn) (id : ℕ) (buf : ArcBuf) (fin : Bool)
    → 0 < buf.len
    → let (h', q', rest, reply) = api.send_body_zc h q id buf fin in
      BodyReply buf.len rest.len reply

-- The iteration over the writable streams has an end.
abbrev pub Counted : ℕ → ℕ → Option ℕ → Type 0
Counted before after none = after ≡ before
Counted before after (some id) = suc after ≡ before

abbrev pub Writables : H3Api → Type 0
Writables api =
    (q : api.Conn)
    → let (q', next) = api.stream_writable_next q in
      Counted (api.writable_len q) (api.writable_len q') next

-- The sets and maps are the lists of their elements and entries.
pub record H3Connection (Q H : Type 0) : Type 0 where
  pub quiche_conn : Q
  pub h3_conn : Option H
  pub blocked : Blocked
  pub read_credit : List (ℕ × ℕ)
  pub pending_readable : List ℕ
  pub pending_body_data : List (ℕ × Buffer)
  pub data_pool : AdaptiveBufferPool
  pub shared_pool : RightSizedPool
  pub trailer_fin_streams : List ℕ
  pub stream_read_window : Option ℕ
  pub largest_accepted_request_id : Option ℕ
  pub next_client_request_stream_id_hint : ℕ

abbrev pub not_initialized : Http3NativeError
not_initialized = invalid_state "H3 not initialized"

-- `1_u64 << 62` less 4
abbrev pub max_server_goaway_request_id : ℕ
max_server_goaway_request_id = 4_611_686_018_427_387_900

abbrev pub goaway_id : Option ℕ → ℕ
goaway_id none = 0
goaway_id (some id) = min (saturating_add id 4) max_server_goaway_request_id

-- The bytes of a DATA frame's length.
unfoldable pub length_bytes : ℕ → ℕ
length_bytes data_len =
    if leb data_len 63
    then 1
    else if leb data_len 16_383
    then 2
    else if leb data_len 1_073_741_823
    then 4
    else 8

unfoldable pub required : ℕ → ℕ
required data_len = 1 + length_bytes data_len + from_bool (ltb 0 data_len)

module _ (api : H3Api) where
  open api use {Conn, H3, Headers}

  abbrev pub Http3 : Type 0
  Http3 = H3Connection Conn H3

  abbrev pub Sending : Type 0
  Sending = Http3 × Result SendOutcome Http3NativeError

  unfoldable pub block : Http3 → ℕ → Http3
  block c id = record c { blocked = track c.blocked id }

  unfoldable pub add_read_credit : Http3 → ℕ → ℕ → Http3
  add_read_credit c id bytes = give c.stream_read_window (find ◌==◌ id c.read_credit)
    where
      give : Option ℕ → Option ℕ → Http3
      give none credit = c
      give (some window) none = c
      give (some window) (some credit) = record c {
        read_credit = put ◌==◌ id (min (saturating_add credit bytes) window) c.read_credit;
      }

  -- The buffer of a stream's body goes back to the pool, emptied.
  abbrev pub give_back : Http3 → Option Buffer → Http3
  give_back c none = c
  give_back c (some buf) =
      let (pool, shared, kept) = checkin c.data_pool c.shared_pool (clear buf) in
      record c { data_pool = pool; shared_pool = shared }

  unfoldable pub clear_stream_tracking : Http3 → ℕ → Http3
  clear_stream_tracking c id =
      give_back
        (record c {
          read_credit = erase ◌==◌ id c.read_credit;
          pending_readable = without id c.pending_readable;
          blocked = untrack c.blocked id;
          pending_body_data = erase ◌==◌ id c.pending_body_data;
          trailer_fin_streams = without id c.trailer_fin_streams;
        })
        (find ◌==◌ id c.pending_body_data)

  unfoldable pub clear_stream_tracking_if_closed : Http3 → ℕ → Http3
  clear_stream_tracking_if_closed c id =
      if api.stream_closed c.quiche_conn id then clear_stream_tracking c id else c

  abbrev pub closed_of : Conn → List ℕ → List ℕ
  closed_of q [] = []
  closed_of q (id ∷ ids) =
      let rest = closed_of q ids in if api.stream_closed q id then id ∷ rest else rest

  abbrev pub clear_all : Http3 → List ℕ → Http3
  clear_all c [] = c
  clear_all c (id ∷ ids) = clear_all (clear_stream_tracking c id) ids

  unfoldable pub prune_closed_blocked_streams : Http3 → Http3
  prune_closed_blocked_streams c = clear_all c (closed_of c.quiche_conn c.blocked.set)

  -- Both directions are shut down, whatever quiche says of it.
  unfoldable pub stream_close : Http3 → ℕ → ℕ → Http3
  stream_close c id code =
      let q1 = api.stream_shutdown c.quiche_conn id true code in
      let q2 = api.stream_shutdown q1 id false code in
      clear_stream_tracking (record c { quiche_conn = q2 }) id
