-- ===== src/PendingWrite/Flushers.antt =====
-- The flushes of src/worker/pending.rs and src/quic_worker/pending.rs for the four handlers. `S` is
-- the state of the connections, which `send` changes.
use http.PendingWrite.Streams.Balance.{flush_streams-Balanced, total_units, Balanced, AllValid}
use http.PendingWrite.Streams.{flush_streams, Round}
use http.PendingWrite.Units.{HonestReply}
use http.PendingWrite.{flush_pending_write_with_progress, FlushOutcome, PendingWrite, SendOutcome}
use http.ArcBuf.{ArcBuf}
use http.Common.{◌||◌, List, not, Result, Bool, false, ℕ}

module _ {S E : Type 0} (has_conn : S → ℕ → Bool) (stream_closed : S → ℕ → ℕ → Bool)
    (send : ℕ → ℕ → S → ArcBuf → Bool → S × Result SendOutcome E) where
  -- A server's stream: its connection's handle and its id.
  abbrev pub StreamKey : Type 0
  StreamKey = ℕ × ℕ

  unfoldable pub flush_one_pending_write :
      StreamKey → S → PendingWrite → S × PendingWrite × Result FlushOutcome E
  flush_one_pending_write (conn, stream) s pw =
      flush_pending_write_with_progress (send conn stream) s pw

  abbrev pub h3_gone : S → StreamKey → Bool
  h3_gone s (conn, stream) = not (has_conn s conn) || stream_closed s conn stream

  abbrev pub send_to : StreamKey → S → ArcBuf → Bool → S × Result SendOutcome E
  send_to (conn, stream) = send conn stream

  -- `flush_pending_writes`
  unfoldable pub flush_pending_writes : S → List (StreamKey × PendingWrite) → Round h3_gone send_to
  flush_pending_writes s pending = flush_streams h3_gone send_to s pending

  abbrev pub quic_gone : S → StreamKey → Bool
  quic_gone s (conn, stream) = not (has_conn s conn)

  unfoldable pub flush_quic_pending_writes :
      S → List (StreamKey × PendingWrite) → Round quic_gone send_to
  flush_quic_pending_writes s pending = flush_streams quic_gone send_to s pending

  -- A client has one connection, `conn`.
  unfoldable pub flush_client_pending_writes :
      (conn : ℕ)
      → S
      → List (ℕ × PendingWrite)
      → Round (λ s stream. stream_closed s conn stream) (send conn)
  flush_client_pending_writes conn s pending =
      flush_streams (λ s stream. stream_closed s conn stream) (send conn) s pending

  unfoldable pub flush_quic_client_pending_writes :
      (conn : ℕ) → S → List (ℕ × PendingWrite) → Round (λ s stream. false) (send conn)
  flush_quic_client_pending_writes conn s pending =
      flush_streams (λ s stream. false) (send conn) s pending

  -- Each of the four flushes accounts for every unit that was queued.
  pub flushers-Balanced :
      ((conn stream : ℕ) (s : S) (b : ArcBuf) (send_fin : Bool)
        → HonestReply b.len send_fin (send conn stream s b send_fin).1)
      → (s : S) (conn : ℕ) (pending : List (StreamKey × PendingWrite))
        (own : List (ℕ × PendingWrite))
      → AllValid pending
      → AllValid own
      → Balanced h3_gone send_to (total_units pending) (flush_pending_writes s pending)
        × Balanced quic_gone send_to (total_units pending) (flush_quic_pending_writes s pending)
        × Balanced
            (λ s stream. stream_closed s conn stream)
            (send conn)
            (total_units own)
            (flush_client_pending_writes conn s own)
        × Balanced
            (λ s stream. false)
            (send conn)
            (total_units own)
            (flush_quic_client_pending_writes conn s own)
  unfolding flush_pending_writes flush_quic_pending_writes flush_client_pending_writes
      flush_quic_client_pending_writes
  flushers-Balanced honest s conn pending own v w = (
    flush_streams-Balanced h3_gone send_to (λ k. honest k.0 k.1) s pending v,
    flush_streams-Balanced quic_gone send_to (λ k. honest k.0 k.1) s pending v,
    flush_streams-Balanced (λ s stream. stream_closed s conn stream) (send conn) (honest conn) s own
        w,
    flush_streams-Balanced (λ s stream. false) (send conn) (honest conn) s own w,
  )
