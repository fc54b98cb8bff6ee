-- ===== src/PendingWrite/Units.antt =====
-- Units of src/pending_write.rs: what a flush releases and what stays queued make up what was
-- queued.
use http.Admission.{accepted_outbound_payload_units, outbound_payload_units}
use http.ArcBuf.{from_vec, ArcBuf}
use http.PendingWrite.{
  queued_units, PendingWrite, flush_pending_write_with_progress, after_send, is_nil, sum_len,
  flush_loop, Flushed, SendOutcome, released_units_for_send,
}
use http.Common.{
  ◌≤◌, subst, ap, Option, refl, ◌&&◌, if◌then◌else◌, arith, err, ◌+◌, ok, ◌≡◌, ◌<◌, Result, [], All,
  Bool, List, none, some, true, false, ℕ, ◌∷◌,
}

-- Only the first chunk may be empty.
abbrev pub Filled : List ArcBuf → Type 0
Filled bs = All (λ b. 0 < b.len) bs

abbrev pub IsValid : List ArcBuf → Type 0
IsValid [] = Unit {0}
IsValid (b ∷ rest) = Filled rest

-- What a connection may answer for a buffer of `len` bytes. Without a remainder it took the whole
-- buffer: it reports as many bytes or more, as a FIN alone may count as one byte. Otherwise the bytes
-- written and those of the remainder make up the buffer, and only an empty buffer leaves an empty
-- remainder. A FIN is accepted only if it was asked for and nothing remains.
abbrev pub Honest : ℕ → Bool → SendOutcome → Type 0
Honest len send_fin o = elim o.remainder [
  | none ↦ (len ≤ o.written) × (o.fin_accepted ≡ true → send_fin ≡ true)
  | some r ↦ (o.written + r.len ≡ len) × (r.len ≡ 0 → len ≡ 0) × (o.fin_accepted ≡ false)
]

abbrev pub HonestReply : {E : Type 0} → ℕ → Bool → Result SendOutcome E → Type 0
HonestReply len send_fin (ok o) = Honest len send_fin o
HonestReply len send_fin (err e) = Unit {0}

Filled-IsValid : (bs : List ArcBuf) → Filled bs → IsValid bs
Filled-IsValid [] h = tt
Filled-IsValid (b ∷ rest) h = h.1

-- Without the FIN, a buffered FIN means that chunks are left.
more :
    (rest : List ArcBuf) (fin : Bool)
    → Filled rest
    → false ≡ (fin && is_nil rest)
    → fin ≡ true
    → 0 < sum_len rest
more [] fin f q e = absurd (ground arith)
more (b ∷ rest) fin f q e = omega (arith, f.0)

-- More bytes than the buffer has count as the buffer.
whole :
    (len written : ℕ) (send_fin fin_accepted : Bool)
    → len ≤ written
    → released_units_for_send len send_fin written fin_accepted
      ≡ released_units_for_send len send_fin len fin_accepted
unfolding released_units_for_send accepted_outbound_payload_units
whole len written send_fin fin_accepted h = ground arith

-- The arithmetic of a round.
round_goes_on :
    (len sum : ℕ) (fin fin_accepted : Bool)
    → (fin ≡ true → 0 < sum)
    → released_units_for_send len false len fin_accepted + outbound_payload_units sum fin
      ≡ outbound_payload_units (len + sum) fin
unfolding released_units_for_send outbound_payload_units accepted_outbound_payload_units
round_goes_on len sum fin fin_accepted h = ground arith

round_leaves :
    (len sum written left : ℕ) (fin send_fin : Bool)
    → written + left ≡ len
    → (left ≡ 0 → len ≡ 0)
    → released_units_for_send len send_fin written false + outbound_payload_units (left + sum) fin
      ≡ outbound_payload_units (len + sum) fin
unfolding released_units_for_send outbound_payload_units accepted_outbound_payload_units
round_leaves len sum written left fin send_fin h k = ground arith

round_ends :
    (len : ℕ) (fin_accepted : Bool)
    → released_units_for_send len true len fin_accepted + (if fin_accepted then 0 else 1)
      ≡ outbound_payload_units len true
unfolding released_units_for_send outbound_payload_units accepted_outbound_payload_units
round_ends len fin_accepted = ground arith

fin_only : outbound_payload_units 0 true ≡ 1
unfolding outbound_payload_units
fin_only = refl

plus_zero : (n : ℕ) → n + 0 ≡ n
plus_zero n = omega arith

nothing : outbound_payload_units 0 false ≡ 0
unfolding outbound_payload_units
nothing = refl

module _ {S E : Type 0} (send : S → ArcBuf → Bool → S × Result SendOutcome E) where
  -- How a flush of `units` leaves the queue.
  abbrev pub Settled : ℕ → Bool → Flushed send → Type 0
  Settled units fin (s, left, ok f) =
      (f.released_units + (if f.done then 0 else outbound_payload_units (sum_len left) fin) ≡ units)
      × IsValid left
      × (f.done ≡ true → left ≡ [])
  Settled units fin (s, left, err e) = IsValid left

  ends :
      (len released written : ℕ) (fin_accepted : Bool)
      → len ≤ written
      → released
          + released_units_for_send len true written fin_accepted
          + (if fin_accepted then 0 else outbound_payload_units 0 true)
        ≡ released + outbound_payload_units (len + 0) true
  ends len released written fin_accepted h =
      rw (whole len written true fin_accepted h, fin_only)
        (omega (
          arith,
          round_ends len fin_accepted,
          ap (λ n. outbound_payload_units n true) (plus_zero len),
        ))

  settle :
      (rest : List ArcBuf) (fin send_fin : Bool) (len released : ℕ) (go : S → ℕ → Flushed send)
      (s : S) (written : ℕ) (fin_accepted : Bool) (remainder : Option ArcBuf)
      → let o : SendOutcome = record {
        written = written;
        fin_accepted = fin_accepted;
        remainder = remainder;
      } in
        Filled rest
        → send_fin ≡ (fin && is_nil rest)
        → Honest len send_fin o
        → ((s : S) (r : ℕ)
            → send_fin ≡ false
            → Settled (r + outbound_payload_units (sum_len rest) fin) fin (go s r))
        → Settled
            (released + outbound_payload_units (len + sum_len rest) fin)
            fin
            (after_send send rest send_fin len released go (s, ok o))
  unfolding after_send
  settle rest fin send_fin len released go s written fin_accepted (some r) f q h k = (
    omega (
      arith,
      ap (released_units_for_send len send_fin written) h.2,
      round_leaves len (sum_len rest) written r.len fin send_fin h.0 h.1,
    ),
    f,
    λ e. absurd (cc),
  )
  settle [] false true len released go s written fin_accepted none f q h k = absurd (ground arith)
  settle [] true true len released go s written fin_accepted none f q h k =
      (ends len released written fin_accepted h.0, tt, λ e. refl)
  settle (x ∷ rest) fin true len released go s written fin_accepted none f q h k =
      absurd (ground arith)
  settle rest fin false len released go s written fin_accepted none f q h k =
      let e : released
            + released_units_for_send len false written fin_accepted
            + outbound_payload_units (sum_len rest) fin
          ≡ released + outbound_payload_units (len + sum_len rest) fin =
        omega (
          arith,
          whole len written false fin_accepted h.0,
          round_goes_on len (sum_len rest) fin fin_accepted (more rest fin f q),
        ) in
      subst
        (λ u.
          Settled u fin (go s (released + released_units_for_send len false written fin_accepted)))
        e (k s _ refl)

  module _
      (honest : (s : S) (b : ArcBuf) (send_fin : Bool)
        → HonestReply b.len send_fin (send s b send_fin).1) where
    after_send-Settled :
        (rest : List ArcBuf) (fin send_fin : Bool) (len released : ℕ) (go : S → ℕ → Flushed send)
        (reply : S × Result SendOutcome E)
        → Filled rest
        → send_fin ≡ (fin && is_nil rest)
        → HonestReply len send_fin reply.1
        → ((s : S) (r : ℕ)
            → send_fin ≡ false
            → Settled (r + outbound_payload_units (sum_len rest) fin) fin (go s r))
        → Settled
            (released + outbound_payload_units (len + sum_len rest) fin)
            fin
            (after_send send rest send_fin len released go reply)
    unfolding after_send
    after_send-Settled rest fin send_fin len released go (s, err e) f q h k = Filled-IsValid rest f
    after_send-Settled rest fin send_fin len released go (s, ok o) f q h k =
        settle rest fin send_fin len released go s o.written o.fin_accepted o.remainder f q h k

    flush_loop-Settled :
        (s : S) (bs : List ArcBuf) (fin : Bool) (released : ℕ)
        → IsValid bs
        → Settled
            (released + outbound_payload_units (sum_len bs) fin)
            fin
            (flush_loop send s bs fin released)
    unfolding flush_loop from_vec
    flush_loop-Settled s [] false released v = (omega (arith, nothing), tt, λ e. refl)
    flush_loop-Settled s [] true released v =
        after_send-Settled [] true true 0 released
          (λ s' r. (s', [], ok (record { done = true; released_units = r })))
          (send s (from_vec []) true) tt refl (honest s (from_vec []) true) (λ s r e. absurd (cc))
    flush_loop-Settled s (b ∷ rest) fin released v =
        after_send-Settled rest fin (fin && is_nil rest) b.len released
          (λ s' r. flush_loop send s' rest fin r) (send s b (fin && is_nil rest)) v refl
          (honest s b _) (λ s' r e. flush_loop-Settled s' rest fin r (Filled-IsValid rest v))

    -- A flush accounts for every unit: what it releases and what stays queued make up what was
    -- queued; nothing stays queued once it is done, and the queue stays well formed, also on an
    -- error.
    pub flush-Settled :
        (s : S) (pw : PendingWrite)
        → IsValid pw.chunks
        → let (s', pw', result) = flush_pending_write_with_progress send s pw in
          Settled (queued_units pw) pw.fin (s', pw'.chunks, result) × (pw'.fin ≡ pw.fin)
    unfolding flush_pending_write_with_progress
    flush-Settled s pw v = (
      subst (λ u. Settled u pw.fin (flush_loop send s pw.chunks pw.fin 0)) (omega arith)
          (flush_loop-Settled s pw.chunks pw.fin 0 v),
      refl,
    )
