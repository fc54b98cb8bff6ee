-- ===== src/Server/Chunks.antt =====
-- The units of a chunk that is put behind a pending write or response, src/worker.rs.
use http.PendingWrite.Response.{body_units, PendingResponse}
use http.Admission.{outbound_payload_units}
use http.ArcBuf.{Chunk, chunk_remaining_len, from_chunk, ArcBuf}
use http.PendingWrite.{queued_units, sum_len, set_fin, push_chunk, PendingWrite}
use http.Common.{
  refl, ap, inr, inl, ◌∙◌, ltb, ap₂, ◌||◌, Bool-cases, ◌+◌, ◌⊎◌, ◌++◌, ◌<◌, ◌≡◌, Option, Bool, List,
  none, some, true, false, ℕ, ◌∷◌, [], arith,
}
use http.Server.{push_body, push_body_chunk, add_chunk}

-- A chunk that may follow a pending write: the write has no FIN yet, and a FIN alone follows only an
-- empty write.
abbrev pub MayFollow : PendingWrite → ℕ → Bool → Type 0
MayFollow pw len fin = (pw.fin ≡ false) × (fin ≡ true → (0 < len) ⊎ (sum_len pw.chunks ≡ 0))

pub sum_len-append : (xs ys : List ArcBuf) → sum_len (xs ++ ys) ≡ sum_len xs + sum_len ys
sum_len-append [] ys = omega arith
sum_len-append (x ∷ xs) ys = omega (arith, sum_len-append xs ys)

pub push_chunk-sum :
    (pw : PendingWrite) (chunk : Chunk)
    → (sum_len (push_chunk pw chunk).0.chunks ≡ sum_len pw.chunks + chunk_remaining_len chunk)
      × ((push_chunk pw chunk).0.fin ≡ pw.fin)
unfolding push_chunk from_chunk chunk_remaining_len
push_chunk-sum pw chunk = elim (Bool-cases (ltb 0 (chunk_remaining_len chunk))) [
  | inl e ↦ rw e (sum_len-append pw.chunks (from_chunk chunk ∷ []) ∙ omega arith, refl)
  | inr e ↦ rw e (ground (arith, e), refl)
]

add_chunk-sum :
    (pw : PendingWrite) (chunk : Chunk) (fin : Bool)
    → (sum_len (add_chunk pw chunk fin).chunks ≡ sum_len pw.chunks + chunk_remaining_len chunk)
      × ((add_chunk pw chunk fin).fin ≡ (pw.fin || fin))
unfolding set_fin
add_chunk-sum pw chunk true = ((push_chunk-sum pw chunk).0, ground arith)
add_chunk-sum pw chunk false =
    ((push_chunk-sum pw chunk).0, (push_chunk-sum pw chunk).1 ∙ ground arith)

-- Units of a payload and of what follows it.
sum_units :
    (sum len : ℕ) (fin' fin : Bool)
    → fin' ≡ false
    → (fin ≡ true → (0 < len) ⊎ (sum ≡ 0))
    → outbound_payload_units (sum + len) (fin' || fin)
      ≡ outbound_payload_units sum fin' + outbound_payload_units len fin
unfolding outbound_payload_units
sum_units sum len fin' true e h = elim (h refl) [
  | inl p ↦ ground (arith, e, p)
  | inr z ↦ ground (arith, e, z)
]
sum_units sum len fin' false e h = ground (arith, e)

pub add_chunk-units :
    (pw : PendingWrite) (chunk : Chunk) (fin : Bool)
    → MayFollow pw (chunk_remaining_len chunk) fin
    → queued_units (add_chunk pw chunk fin)
      ≡ queued_units pw + outbound_payload_units (chunk_remaining_len chunk) fin
add_chunk-units pw chunk fin h =
    ap₂ outbound_payload_units (add_chunk-sum pw chunk fin).0 (add_chunk-sum pw chunk fin).1
    ∙ sum_units (sum_len pw.chunks) (chunk_remaining_len chunk) pw.fin fin h.0 h.1

no_more :
    (sum : ℕ) (fin : Bool)
    → 0 < sum
    → outbound_payload_units (sum + 0) (fin || true) ≡ outbound_payload_units sum fin
unfolding outbound_payload_units
no_more sum fin p = ground (arith, p)

-- A FIN alone behind bytes that wait costs nothing there.
pub lone_fin-units :
    (pw : PendingWrite) (chunk : Chunk)
    → 0 < sum_len pw.chunks
    → chunk_remaining_len chunk ≡ 0
    → queued_units (add_chunk pw chunk true) ≡ queued_units pw
lone_fin-units pw chunk p e =
    ap₂ outbound_payload_units ((add_chunk-sum pw chunk true).0 ∙ ap (λ n. sum_len pw.chunks + n) e)
      (add_chunk-sum pw chunk true).1
    ∙ no_more (sum_len pw.chunks) pw.fin p

-- A body that may get a chunk.
abbrev pub MayPush : Option PendingWrite → ℕ → Bool → Type 0
MayPush none len fin = Unit {0}
MayPush (some pw) len fin = MayFollow pw len fin

pub new-units :
    (b : ArcBuf) (fin : Bool)
    → queued_units (http.PendingWrite.new b fin) ≡ outbound_payload_units b.len fin
new-units b fin = ap (λ n. outbound_payload_units n fin) (plus_zero b.len)
  where
    plus_zero : (n : ℕ) → n + 0 ≡ n
    plus_zero n = omega arith

pub push_body-units :
    {Headers : Type 0} (r : PendingResponse Headers) (chunk : Chunk) (fin : Bool)
    (body : Option PendingWrite)
    → MayPush body (chunk_remaining_len chunk) fin
    → body_units (push_body r chunk fin body).body
      ≡ body_units body + outbound_payload_units (chunk_remaining_len chunk) fin
unfolding from_chunk chunk_remaining_len
push_body-units r chunk fin none h = omega (arith, new-units (from_chunk chunk) fin)
push_body-units r chunk fin (some pw) h = add_chunk-units pw chunk fin h

pub push_body_chunk-units :
    {Headers : Type 0} (r : PendingResponse Headers) (chunk : Chunk) (fin : Bool)
    → MayPush r.body (chunk_remaining_len chunk) fin
    → body_units (push_body_chunk r chunk fin).body
      ≡ body_units r.body + outbound_payload_units (chunk_remaining_len chunk) fin
unfolding push_body_chunk
push_body_chunk-units r chunk fin h = push_body-units r chunk fin r.body h
