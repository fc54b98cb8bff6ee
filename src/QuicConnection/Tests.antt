-- ===== src/QuicConnection/Tests.antt =====
-- A raw QUIC connection over a quiche that takes at most two bytes of a buffer.
use http.ArcBuf.{ArcBuf}
use http.Common.{
  not, ◌&&◌, ◌-◌, elem, ◌≡◌, if◌then◌else◌, ◌≤◌, Bool, leb, ◌==◌, Option, length, Bool-cases, ◌+◌,
  inl, inr, none, some, true, false, refl, ℕ, ◌∷◌, [], arith, ok,
}
use http.QuicConnection.Send.{stream_send_arcbuf-Sent, quic_flush-Settled, Sent}
use http.QuicConnection.Streams.{sweep_finished_streams_lem, is_over}
use http.QuicConnection.{Quic, stream_send_arcbuf, sweep_finished_streams, Reply}
use http.Quiche.{QuicheApi, SendsAll}
use http.PendingWrite.Units.{Settled}
use http.PendingWrite.{PendingWrite, queued_units, flush_pending_write_with_progress}

-- What is left of a buffer.
abbrev rest_of : ArcBuf → ℕ × Option ArcBuf
rest_of buf =
    if leb buf.len 2
    then (buf.len, none)
    else (2, some (record buf { offset = buf.offset + 2; len = buf.len - 2 }))

-- The state is the number of sends; stream 12 is finished.
abbrev toy : QuicheApi
toy = record {
  Conn = ℕ;
  is_server = λ q. true;
  stream_capacity = λ q id. ok 5;
  stream_send = λ q id bytes fin. (q + 1, ok 0);
  stream_send_zc = λ q id buf fin. (q + 1, ok (rest_of buf));
  stream_shutdown = λ q id read code. q;
  stream_finished = λ q id. id == 12;
  stream_readable = λ q id. false;
  stream_closed = λ q id. false;
  is_dgram_send_queue_full = λ q. false;
  dgram_send_buf = λ q buf. (q, ok tt);
}

toy-SendsAll : SendsAll toy
toy-SendsAll q id buf fin p = elim (Bool-cases (leb buf.len 2)) [
  | inl e ↦ rw e refl
  | inr e ↦ rw e (ground (arith, e), ground (arith, e))
]

abbrev connection : Quic toy
connection = record {
  quiche_conn = 0;
  blocked = record { queue = []; set = [] };
  known_streams = 12 ∷ 4 ∷ [];
  pending_fin = 4 ∷ 12 ∷ [];
  outbound_datagrams = [];
}

abbrev buf : ArcBuf
buf = record { store = 1 ∷ 2 ∷ 3 ∷ 4 ∷ 5 ∷ []; pool = none; offset = 0; len = 5 }

stream_send_arcbuf-Sent_example :
    Sent toy toy-SendsAll connection 4 buf true (stream_send_arcbuf toy connection 4 buf true)
stream_send_arcbuf-Sent_example = stream_send_arcbuf-Sent toy toy-SendsAll connection 4 buf true

abbrev write : PendingWrite
write = record { chunks = buf ∷ []; fin = true }

quic_flush-Settled_example :
    let send : Quic toy → ArcBuf → Bool → Reply toy =
      λ c buf fin. stream_send_arcbuf toy c 4 buf fin in
    let (c', pw', result) = flush_pending_write_with_progress send connection write in
    Settled send (queued_units write) write.fin (c', pw'.chunks, result) × (pw'.fin ≡ write.fin)
quic_flush-Settled_example = quic_flush-Settled toy toy-SendsAll connection 4 write tt

sweep_finished_streams_lem_example :
    let (c', events) = sweep_finished_streams toy connection 1 in
    (length events ≤ 1)
    × ((k : ℕ)
        → elem k events ≡ true
        → (elem k connection.pending_fin ≡ true)
          × (elem k connection.known_streams ≡ true)
          × (is_over toy connection.quiche_conn k ≡ true))
    × ((k : ℕ) → elem k c'.known_streams ≡ (elem k connection.known_streams && not (elem k events)))
    × ((k : ℕ) → elem k events ≡ true → elem k c'.pending_fin ≡ false)
sweep_finished_streams_lem_example = sweep_finished_streams_lem toy connection 1
