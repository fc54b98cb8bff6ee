-- ===== src/PendingWrite.antt =====
-- src/pending_write.rs: the writes of a stream that wait for flow control, and the loop that hands
-- them to the connection. The connection is a state `S` with a `send` operation.
pub mod Units
pub mod Streams
pub mod Flushers
pub mod Response
mod Tests
use http.Admission.{accepted_outbound_payload_units, outbound_payload_units}
use http.ArcBuf.{from_chunk, from_vec, chunk_remaining_len, Chunk, ArcBuf}
use http.Common.{
  ◌||◌, ◌&&◌, is_some, err, ◌++◌, ltb, ok, ◌+◌, if◌then◌else◌, [], Result, Option, leb, ◌∷◌, Bool,
  List, none, some, true, false, ℕ,
}

pub record PendingWrite : Type 0 where
  pub chunks : List ArcBuf
  pub fin : Bool

abbrev pub new : ArcBuf → Bool → PendingWrite
new remainder fin = record { chunks = remainder ∷ []; fin = fin }

-- `push_chunk`: the write and the bytes queued; an empty chunk is not queued.
unfoldable pub push_chunk : PendingWrite → Chunk → PendingWrite × ℕ
push_chunk pw chunk =
    let queued = chunk_remaining_len chunk in
    if ltb 0 queued
    then (record pw { chunks = pw.chunks ++ (from_chunk chunk ∷ []) }, queued)
    else (pw, queued)

unfoldable pub set_fin : PendingWrite → PendingWrite
set_fin pw = record pw { fin = true }

abbrev pub sum_len : List ArcBuf → ℕ
sum_len [] = 0
sum_len (b ∷ rest) = b.len + sum_len rest

abbrev pub queued_bytes : PendingWrite → ℕ
queued_bytes pw = sum_len pw.chunks

-- `snapshot().queued_units()`
abbrev pub queued_units : PendingWrite → ℕ
queued_units pw = outbound_payload_units (queued_bytes pw) pw.fin

-- `pending_write_model::released_units_for_send`
unfoldable pub released_units_for_send : ℕ → Bool → ℕ → Bool → ℕ
released_units_for_send payload_len send_fin written fin_accepted =
    accepted_outbound_payload_units payload_len send_fin written fin_accepted

unfoldable pub release_is_bounded : ℕ → Bool → ℕ → Bool → Bool
unfolding released_units_for_send
release_is_bounded payload_len send_fin written fin_accepted =
    leb (released_units_for_send payload_len send_fin written fin_accepted)
      (outbound_payload_units payload_len send_fin)

pub record SendOutcome : Type 0 where
  pub written : ℕ
  pub fin_accepted : Bool
  pub remainder : Option ArcBuf

pub record FlushOutcome : Type 0 where
  pub done : Bool
  pub released_units : ℕ

-- `Vec::is_empty` of the queue.
abbrev pub is_nil {ℓ} : {A : Type ℓ} → List A → Bool
is_nil [] = true
is_nil (x ∷ xs) = false

module _ {S E : Type 0} (send : S → ArcBuf → Bool → S × Result SendOutcome E) where
  -- The connection, the chunks left and the result.
  abbrev pub Flushed : Type 0
  Flushed = S × List ArcBuf × Result FlushOutcome E

  -- A send that ends the loop, by a remainder, which goes back to the front, or by the FIN.
  pub finish : S → List ArcBuf → ℕ → SendOutcome → Flushed
  finish s rest released o = elim o.remainder [
    | some r ↦ (s, r ∷ rest, ok (record { done = false; released_units = released }))
    | none ↦ (s, rest, ok (record { done = o.fin_accepted; released_units = released }))
  ]

  abbrev pub total : ℕ → ℕ → Bool → SendOutcome → ℕ
  total released len send_fin o =
      released + released_units_for_send len send_fin o.written o.fin_accepted

  -- A round, after the connection answered for a buffer of `len` bytes: `?` returns an error, a
  -- remainder or the FIN ends the loop, and otherwise it goes on with `rest`.
  pub after_send :
      List ArcBuf → Bool → ℕ → ℕ → (S → ℕ → Flushed) → S × Result SendOutcome E → Flushed
  unfolding finish
  after_send rest send_fin len released go (s, err e) = (s, rest, err e)
  after_send rest send_fin len released go (s, ok o) =
      let released' = total released len send_fin o in
      if is_some o.remainder || send_fin then finish s rest released' o else go s released'

  -- The rounds of the loop. A round takes a chunk from the queue, so there is one for each chunk,
  -- and a last one for a FIN without payload, which always ends the loop.
  unfoldable pub flush_loop : S → List ArcBuf → Bool → ℕ → Flushed
  unfolding after_send from_vec
  flush_loop s [] fin released =
      if fin
      then after_send [] true 0 released
          (λ s' r. (s', [], ok (record { done = true; released_units = r })))
          (send s (from_vec []) true)
      else (s, [], ok (record { done = true; released_units = released }))
  flush_loop s (b ∷ rest) fin released =
      let send_fin = fin && is_nil rest in
      after_send rest send_fin b.len released (λ s' r. flush_loop s' rest fin r) (send s b send_fin)

  unfoldable pub flush_pending_write_with_progress :
      S → PendingWrite → S × PendingWrite × Result FlushOutcome E
  flush_pending_write_with_progress s pw =
      let (s', chunks, result) = flush_loop s pw.chunks pw.fin 0 in
      (s', record pw { chunks = chunks }, result)

  -- `flush_pending_write`: only whether the write is done.
  unfoldable pub flush_pending_write : S → PendingWrite → S × PendingWrite × Result Bool E
  flush_pending_write s pw = done_of (flush_pending_write_with_progress s pw)
    where
      done_of : S × PendingWrite × Result FlushOutcome E → S × PendingWrite × Result Bool E
      done_of (s', pw', ok o) = (s', pw', ok o.done)
      done_of (s', pw', err e) = (s', pw', err e)
