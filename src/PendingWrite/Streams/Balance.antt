-- ===== src/PendingWrite/Streams/Balance.antt =====
-- The account of units when all streams of src/worker/pending.rs are flushed.
use http.Admission.{outbound_payload_units}
use http.PendingWrite.Streams.{keep_entry, drop_entry, flush_streams, after_flush, Round}
use http.PendingWrite.Units.{flush-Settled, Settled, HonestReply, IsValid}
use http.ArcBuf.{ArcBuf}
use http.PendingWrite.{
  sum_len, flush_pending_write_with_progress, FlushOutcome, SendOutcome, queued_units, PendingWrite,
}
use http.Common.{
  true, ap, ok, Bool-cases, err, arith, ◌≡◌, [], ◌+◌, Result, Bool, List, inl, inr, false, ℕ, ◌∷◌,
}

module _ {K : Type 0} where
  abbrev pub total_units : List (K × PendingWrite) → ℕ
  total_units [] = 0
  total_units ((k, pw) ∷ rest) = queued_units pw + total_units rest

  abbrev pub AllValid : List (K × PendingWrite) → Type 0
  AllValid [] = Unit {0}
  AllValid ((k, pw) ∷ rest) = IsValid pw.chunks × AllValid rest

module _ {S E K : Type 0} (gone : S → K → Bool)
    (send : K → S → ArcBuf → Bool → S × Result SendOutcome E) where
  abbrev pub Balanced : ℕ → Round gone send → Type 0
  Balanced units (s, left, events) =
      (events.released_units + total_units left ≡ units) × AllValid left

  drop-Balanced :
      (flushed : Bool) (k : K) (n units : ℕ) (r : Round gone send)
      → Balanced units r
      → Balanced (n + units) (drop_entry gone send flushed k n r)
  drop-Balanced flushed k n units (s, left, events) (b, v) = (omega (arith, b), v)

  keep-Balanced :
      (k : K) (pw : PendingWrite) (n units : ℕ) (r : Round gone send)
      → IsValid pw.chunks
      → Balanced units r
      → Balanced (n + queued_units pw + units) (keep_entry gone send k pw n r)
  keep-Balanced k pw n units (s, left, events) h (b, v) = (omega (arith, b), (h, v))

  ok-Balanced :
      (k : K) (before units : ℕ) (fin : Bool) (go : S → Round gone send) (s : S) (pw : PendingWrite)
      (done : Bool) (released : ℕ)
      → Settled
          (send k)
          before
          fin
          (s, pw.chunks, ok (record { done = done; released_units = released }))
      → pw.fin ≡ fin
      → ((s : S) → Balanced units (go s))
      → Balanced (before + units) (
          after_flush gone send k before go
            (s, pw, ok (record { done = done; released_units = released })))
  unfolding after_flush
  ok-Balanced k before units fin go s pw true released h q g =
      let (b, v) = g s in (omega (arith, h.0, b), v)
  ok-Balanced k before units fin go s pw false released h q g =
      let (b, v) = g s in
      (omega (arith, h.0, b, ap (outbound_payload_units (sum_len pw.chunks)) q), (h.1, v))

  after_flush-Balanced :
      (k : K) (before units : ℕ) (fin : Bool) (go : S → Round gone send)
      (out : S × PendingWrite × Result FlushOutcome E)
      → Settled (send k) before fin (out.0, out.1.chunks, out.2)
      → out.1.fin ≡ fin
      → ((s : S) → Balanced units (go s))
      → Balanced (before + units) (after_flush gone send k before go out)
  unfolding after_flush
  after_flush-Balanced k before units fin go (s, pw, err e) h q g =
      drop-Balanced false k before units (go s) (g s)
  after_flush-Balanced k before units fin go (s, pw, ok o) h q g =
      ok-Balanced k before units fin go s pw o.done o.released_units h q g

  -- Over all streams, whatever is gone, done, kept or failed: the released units and those still
  -- queued make up what was queued before.
  pub flush_streams-Balanced :
      ((k : K) (s : S) (b : ArcBuf) (send_fin : Bool)
        → HonestReply b.len send_fin (send k s b send_fin).1)
      → (s : S) (pending : List (K × PendingWrite)) → AllValid pending
      → Balanced (total_units pending) (flush_streams gone send s pending)
  unfolding flush_streams
  flush_streams-Balanced honest s [] v = (omega arith, tt)
  flush_streams-Balanced honest s ((k, pw) ∷ rest) v = elim (Bool-cases (gone s k)) [
    | inl e ↦ rw e (
        drop-Balanced false k (queued_units pw) (total_units rest) (flush_streams gone send s rest)
          (flush_streams-Balanced honest s rest v.1))
    | inr e ↦
        let (settled, same) = flush-Settled (send k) (honest k) s pw v.0 in
        rw e (
          after_flush-Balanced k (queued_units pw) (total_units rest) pw.fin
            (λ s'. flush_streams gone send s' rest)
            (flush_pending_write_with_progress (send k) s pw) settled same
            (λ s'. flush_streams-Balanced honest s' rest v.1))
  ]
