-- ===== src/PendingWrite/Streams.antt =====
-- src/worker/pending.rs and src/quic_worker/pending.rs: flushing the pending writes of all streams.
-- The hash map is visited in the order of a list.
pub mod Balance
use http.PendingWrite.{
  flush_pending_write_with_progress, queued_units, FlushOutcome, PendingWrite, SendOutcome,
}
use http.ArcBuf.{ArcBuf}
use http.Common.{[], ok, err, ◌+◌, if◌then◌else◌, Result, Bool, List, true, false, ℕ, ◌∷◌}

-- `PendingWriteFlushEvents`
pub record PendingWriteFlushEvents (K : Type 0) : Type 0 where
  pub drained : List K
  pub released_units : ℕ

module _ {S E K : Type 0} (gone : S → K → Bool)
    (send : K → S → ArcBuf → Bool → S × Result SendOutcome E) where
  abbrev pub Round : Type 0
  Round = S × List (K × PendingWrite) × PendingWriteFlushEvents K

  -- What `retain` does with one entry before the others: drop it or keep it, and count.
  abbrev pub drop_entry : Bool → K → ℕ → Round → Round
  drop_entry flushed k units (s, rest, events) = (
    s,
    rest,
    record {
      drained = if flushed then k ∷ events.drained else events.drained;
      released_units = units + events.released_units;
    },
  )

  abbrev pub keep_entry : K → PendingWrite → ℕ → Round → Round
  keep_entry k pw units (s, rest, events) =
      (s, (k, pw) ∷ rest, record events { released_units = units + events.released_units })

  pub after_flush : K → ℕ → (S → Round) → S × PendingWrite × Result FlushOutcome E → Round
  after_flush k before_units go (s, pw, err e) = drop_entry false k before_units (go s)
  after_flush k before_units go (s, pw, ok o) =
      if o.done
      then drop_entry true k o.released_units (go s)
      else keep_entry k pw o.released_units (go s)

  -- `pending.retain(…)`: a stream that is gone, or whose send fails, releases all its units.
  unfoldable pub flush_streams : S → List (K × PendingWrite) → Round
  unfolding after_flush
  flush_streams s [] = (s, [], record { drained = []; released_units = 0 })
  flush_streams s ((k, pw) ∷ rest) =
      if gone s k
      then drop_entry false k (queued_units pw) (flush_streams s rest)
      else after_flush k (queued_units pw) (λ s'. flush_streams s' rest)
          (flush_pending_write_with_progress (send k) s pw)
