-- ===== src/QuicConnection.antt =====
-- src/quic_connection.rs: a raw QUIC connection, which keeps track of its streams around quiche. Packet
-- and byte counters, logs and the session ticket are left out.
pub mod Send
pub mod Datagrams
pub mod Streams
mod Tests
use http.Error.{invalid_state, Http3NativeError, quiche}
use http.PendingWrite.{SendOutcome}
use http.ArcBuf.{from_chunk, Chunk, ArcBuf}
use http.Quiche.{done, error_code, other, QuicheError, QuicheApi}
use http.Blocked.{poll_queue, without, DrainEvent, untrack, track, Blocked}
use http.Common.{
  ◌++◌, ◌/◌, length, ◌||◌, zero, is_some, leb, not, ltb, from_bool, ◌&&◌, ◌==◌, ◌%◌, elem, suc,
  Bool, Result, if◌then◌else◌, Option, List, none, some, true, false, ℕ, ◌∷◌, [], ok, err,
}

abbrev pub max_outbound_datagram_queue : ℕ
max_outbound_datagram_queue = 64

-- The sets are the lists of their elements.
pub record QuicConnection (Q : Type 0) : Type 0 where
  pub quiche_conn : Q
  pub blocked : Blocked
  pub known_streams : List ℕ
  pub pending_fin : List ℕ
  pub outbound_datagrams : List ArcBuf

-- `HashSet::insert`
abbrev pub set_insert : ℕ → List ℕ → List ℕ
set_insert k set = if elem k set then set else k ∷ set

-- An answer that nothing was sent.
abbrev pub nothing_sent : Option ArcBuf → SendOutcome
nothing_sent remainder = record { written = 0; fin_accepted = false; remainder = remainder }

module _ (api : QuicheApi) where
  open api use {Conn}

  abbrev pub Quic : Type 0
  Quic = QuicConnection Conn

  abbrev pub Reply : Type 0
  Reply = Quic × Result SendOutcome Http3NativeError

  unfoldable pub is_local_stream : Quic → ℕ → Bool
  is_local_stream c id = id % 2 == from_bool (api.is_server c.quiche_conn)

  -- `if self.is_local_stream(id) { known_streams.insert(id) }`
  unfoldable pub learn : Quic → ℕ → Quic
  unfolding is_local_stream
  learn c id =
      if is_local_stream c id then record c { known_streams = set_insert id c.known_streams } else c

  unfoldable pub track_blocked : Quic → ℕ → Quic
  track_blocked c id = record c { blocked = track c.blocked id }

  -- A FIN alone, after quiche answered: it counts as one byte.
  abbrev pub after_fin : Quic → ℕ → ArcBuf → Conn × Result ℕ QuicheError → Reply
  after_fin c id buf (q, ok written) = (
    learn (record c { quiche_conn = q }) id,
    ok (record {
      written = if written == 0 then 1 else written;
      fin_accepted = true;
      remainder = none;
    }),
  )
  after_fin c id buf (q, err done) =
      (track_blocked (record c { quiche_conn = q }) id, ok (nothing_sent (some buf)))
  after_fin c id buf (q, err (other e)) = (record c { quiche_conn = q }, err (quiche e))

  -- The zero-copy send, after quiche answered.
  abbrev pub after_zc :
      Quic → ℕ → ArcBuf → Bool → Conn × Result (ℕ × Option ArcBuf) QuicheError → Reply
  after_zc c id buf fin (q, ok (written, remaining)) =
      let c1 : Quic = record c { quiche_conn = q } in
      let c2 = if ltb written buf.len then track_blocked c1 id else c1 in
      (
        learn c2 id,
        ok (record {
          written = written;
          fin_accepted = fin && not (is_some remaining);
          remainder = remaining;
        }),
      )
  after_zc c id buf fin (q, err done) =
      (track_blocked (record c { quiche_conn = q }) id, ok (nothing_sent (some buf)))
  after_zc c id buf fin (q, err (other e)) = (record c { quiche_conn = q }, err (quiche e))

  abbrev pub send_zc : Quic → ℕ → ArcBuf → Bool → Reply
  send_zc c id buf fin = after_zc c id buf fin (api.stream_send_zc c.quiche_conn id buf fin)

  -- A stream known to be blocked is not tried again before it has capacity.
  abbrev pub if_capacity : Quic → ℕ → ArcBuf → Bool → Result ℕ ℕ → Reply
  if_capacity c id buf fin (err e) = (c, err (quiche e))
  if_capacity c id buf fin (ok capacity) =
      if capacity == 0 then (c, ok (nothing_sent (some buf))) else send_zc c id buf fin

  unfoldable pub stream_send_arcbuf : Quic → ℕ → ArcBuf → Bool → Reply
  stream_send_arcbuf c id buf fin =
      if buf.len == 0
      then if not fin
        then (c, ok (nothing_sent none))
        else after_fin c id buf (api.stream_send c.quiche_conn id [] true)
      else if elem id c.blocked.set
      then if_capacity c id buf fin (api.stream_capacity c.quiche_conn id)
      else send_zc c id buf fin

  unfoldable pub stream_send_chunk : Quic → ℕ → Chunk → Bool → Reply
  stream_send_chunk c id chunk fin = stream_send_arcbuf c id (from_chunk chunk) fin

  abbrev pub after_reserve :
      Quic → ℕ → Conn × Result ℕ QuicheError → Quic × Result (Unit {0}) Http3NativeError
  after_reserve c id (q, ok zero) =
      (record c { quiche_conn = q; known_streams = set_insert id c.known_streams }, ok tt)
  after_reserve c id (q, ok (suc n)) =
      (record c { quiche_conn = q }, err (invalid_state "empty stream reservation wrote bytes"))
  after_reserve c id (q, err e) = (record c { quiche_conn = q }, err (quiche (error_code e)))

  -- `stream_id & 0x2 != 0` is bit 1.
  unfoldable pub reserve_local_bidi_stream : Quic → ℕ → Quic × Result (Unit {0}) Http3NativeError
  reserve_local_bidi_stream c id =
      if not (is_local_stream c id) || not ((id / 2) % 2 == 0)
      then (c, err (invalid_state "stream is not a local bidirectional stream"))
      else after_reserve c id (api.stream_send c.quiche_conn id [] false)

  -- Both directions are shut down, whatever quiche says of it.
  unfoldable pub stream_close : Quic → ℕ → ℕ → Quic
  stream_close c id code =
      let q1 = api.stream_shutdown c.quiche_conn id true code in
      let q2 = api.stream_shutdown q1 id false code in
      record c {
        quiche_conn = q2;
        blocked = untrack c.blocked id;
        known_streams = without id c.known_streams;
      }

  unfoldable pub poll_drain_events : Quic → Quic × List DrainEvent
  poll_drain_events c =
      let (blocked, events) = poll_queue (api.stream_capacity c.quiche_conn) c.blocked in
      (record c { blocked = blocked }, events)

  -- `queue_datagram`: true if the datagram was taken.
  abbrev pub after_dgram :
      Quic → Conn × Result (Unit {0}) QuicheError → Quic × Result Bool Http3NativeError
  after_dgram c (q, ok u) = (record c { quiche_conn = q }, ok true)
  after_dgram c (q, err e) = (record c { quiche_conn = q }, err (quiche (error_code e)))

  unfoldable pub queue_datagram : Quic → Chunk → Quic × Result Bool Http3NativeError
  queue_datagram c chunk =
      let buf = from_chunk chunk in
      if api.is_dgram_send_queue_full c.quiche_conn
      then if leb max_outbound_datagram_queue (length c.outbound_datagrams)
        then (c, ok false)
        else (record c { outbound_datagrams = c.outbound_datagrams ++ (buf ∷ []) }, ok true)
      else after_dgram c (api.dgram_send_buf c.quiche_conn buf)

  -- The loop of `drain_outbound_datagrams`, over the queue. A datagram that quiche refuses is
  -- dropped, and ends the loop.
  abbrev pub drain_loop : Conn → List ArcBuf → Conn × List ArcBuf
  drain_loop q [] = (q, [])
  drain_loop q (buf ∷ rest) =
      let (q', sent) = api.dgram_send_buf q buf in
      let later = drain_loop q' rest in
      if api.is_dgram_send_queue_full q
      then (q, buf ∷ rest)
      else elim sent [ ok u ↦ later | err e ↦ (q', rest) ]

  unfoldable pub drain_outbound_datagrams : Quic → Quic
  drain_outbound_datagrams c =
      let (q, queue) = drain_loop c.quiche_conn c.outbound_datagrams in
      record c { quiche_conn = q; outbound_datagrams = queue }

  -- The first loop of `sweep_finished_streams`: at most `remaining` streams that are finished and read.
  abbrev pub newly_finished : Conn → ℕ → List ℕ → List ℕ
  newly_finished q zero ids = []
  newly_finished q (suc remaining) [] = []
  newly_finished q (suc remaining) (id ∷ ids) =
      let skip = newly_finished q (suc remaining) ids in
      let take = newly_finished q remaining ids in
      if api.stream_finished q id && not (api.stream_readable q id) then id ∷ take else skip

  -- The second loop: a FINISHED event for each of them that is still known.
  abbrev pub finish_all : Quic → List ℕ → Quic × List ℕ
  finish_all c [] = (c, [])
  finish_all c (id ∷ ids) =
      let c1 : Quic = record c { pending_fin = without id c.pending_fin } in
      let c2 : Quic = record c1 {
        known_streams = without id c.known_streams;
        quiche_conn = api.stream_shutdown c.quiche_conn id true 0;
      } in
      let skip = finish_all c1 ids in
      let (c3, events) = finish_all c2 ids in
      if elem id c.known_streams then (c3, id ∷ events) else skip

  -- `sweep_finished_streams`: the streams whose FINISHED event is pushed.
  unfoldable pub sweep_finished_streams : Quic → ℕ → Quic × List ℕ
  sweep_finished_streams c budget = finish_all c (newly_finished c.quiche_conn budget c.pending_fin)
