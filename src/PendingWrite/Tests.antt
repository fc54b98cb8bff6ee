-- ===== src/PendingWrite/Tests.antt =====
-- A flush over a connection that takes at most two bytes of each buffer.
use http.PendingWrite.Response.{PendingResponse}
use http.PendingWrite.Streams.{flush_streams}
use http.PendingWrite.Units.{flush-Settled, Settled, HonestReply}
use http.PendingWrite.Streams.Balance.{flush_streams-Balanced, total_units, Balanced}
use http.PendingWrite.{queued_units, SendOutcome, flush_pending_write_with_progress, PendingWrite}
use http.ArcBuf.{ArcBuf}
use http.Common.{
  not, ◌-◌, if◌then◌else◌, ◌≡◌, leb, ◌+◌, Bool-cases, ◌==◌, replicate, Result, List, Bool, inl, inr,
  none, some, true, false, refl, ℕ, ◌∷◌, [], ok, arith,
}

-- The state is the number of calls.
abbrev two_bytes : ℕ → ArcBuf → Bool → ℕ × Result SendOutcome (Unit {0})
two_bytes calls b send_fin = (
  calls + 1,
  ok (
      if leb b.len 2
      then record { written = b.len; fin_accepted = send_fin; remainder = none }
      else record {
        written = 2;
        fin_accepted = false;
        remainder = some (record b { offset = b.offset + 2; len = b.len - 2 });
      }),
)

two_bytes-HonestReply :
    (calls : ℕ) (b : ArcBuf) (send_fin : Bool)
    → HonestReply b.len send_fin (two_bytes calls b send_fin).1
two_bytes-HonestReply calls b send_fin = elim (Bool-cases (leb b.len 2)) [
  | inl e ↦ rw e (omega arith, λ q. q)
  | inr e ↦ rw e (ground (arith, e), ground (arith, e), refl)
]

abbrev window : ℕ → ArcBuf
window len = record { store = replicate 9 0; pool = none; offset = 0; len = len }

abbrev write : PendingWrite
write = record { chunks = window 2 ∷ window 5 ∷ []; fin = true }

flush-Settled_example :
    let (s', pw', result) = flush_pending_write_with_progress two_bytes 0 write in
    Settled two_bytes (queued_units write) write.fin (s', pw'.chunks, result)
    × (pw'.fin ≡ write.fin)
flush-Settled_example = flush-Settled two_bytes two_bytes-HonestReply 0 write (ground arith)

-- Stream 4 is gone.
abbrev gone : ℕ → ℕ → Bool
gone s k = k == 4

abbrev pending : List (ℕ × PendingWrite)
pending = (0, write) ∷ (4, write) ∷ (8, write) ∷ []

flush_streams-Balanced_example :
    Balanced gone
      (λ k. two_bytes)
      (total_units pending)
      (flush_streams gone (λ k. two_bytes) 0 pending)
flush_streams-Balanced_example =
    flush_streams-Balanced gone (λ k. two_bytes) (λ k. two_bytes-HonestReply) 0 pending
      (ground arith)

abbrev has_conn : ℕ → ℕ → Bool
has_conn s k = not (k == 4)

abbrev closed : ℕ → ℕ → ℕ → Bool
closed s conn stream = stream == 12

abbrev reply : ℕ → ℕ → ℕ → ArcBuf → Bool → ℕ × Result SendOutcome (Unit {0})
reply conn stream = two_bytes

abbrev server_pending : List ((ℕ × ℕ) × PendingWrite)
server_pending = ((1, 0), write) ∷ ((4, 8), write) ∷ ((1, 12), write) ∷ []

abbrev response : PendingResponse (List ℕ)
response = record {
  headers = 200 ∷ [];
  headers_fin = false;
  headers_sent = false;
  body = some write;
}

abbrev send_headers : ℕ → List ℕ → Bool → ℕ × Result (Unit {0}) (Unit {0})
send_headers calls headers fin = (calls + 1, ok tt)
