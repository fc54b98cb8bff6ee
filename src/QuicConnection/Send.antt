-- ===== src/QuicConnection/Send.antt =====
-- What a send on a raw QUIC connection reports, src/quic_connection.rs.
use http.Blocked.Tracking.{track_lem}
use http.QuicConnection.{
  if_capacity, send_zc, nothing_sent, after_zc, after_fin, is_local_stream, Quic, Reply,
  stream_send_arcbuf, track_blocked, learn,
}
use http.PendingWrite.Units.{flush-Settled, Settled, Honest, HonestReply}
use http.Blocked.Tracking.{IsValid}
use http.ArcBuf.{ArcBuf}
use http.PendingWrite.{queued_units, flush_pending_write_with_progress, PendingWrite, SendOutcome}
use http.Quiche.{done, other, ZcReply, QuicheError, SendsAll, QuicheApi}
use http.Blocked.{Blocked}
use http.Common.{
  ==_iff, ◌==◌, [], not, ap, if◌then◌else◌, lt→ltb, ltb, subst, ◌<◌, ◌∙◌, Bool-cases, elem, sym,
  ◌+◌, ◌≡◌, is_some, ◌≤◌, Option, Result, Bool, inl, inr, none, some, true, false, refl, ℕ, ok, err,
  arith,
}

-- The answer that the unit accounting relies on: as an honest one, and a FIN that was asked for is
-- accepted exactly if nothing remains.
abbrev pub Exact : ℕ → Bool → SendOutcome → Type 0
Exact len fin o = elim o.remainder [
  | none ↦ (len ≤ o.written) × (o.fin_accepted ≡ fin)
  | some r ↦ (o.written + r.len ≡ len) × (r.len ≡ 0 → len ≡ 0) × (o.fin_accepted ≡ false)
]

abbrev pub ExactReply : {E : Type 0} → ℕ → Bool → Result SendOutcome E → Type 0
ExactReply len fin (ok o) = Exact len fin o
ExactReply len fin (err e) = Unit {0}

Exact-Honest :
    (len written : ℕ) (fin fin_accepted : Bool) (remainder : Option ArcBuf)
    → let o : SendOutcome = record {
      written = written;
      fin_accepted = fin_accepted;
      remainder = remainder;
    } in
      Exact len fin o → Honest len fin o
Exact-Honest len written fin fin_accepted none (h, e) = (h, λ q. sym e ∙ q)
Exact-Honest len written fin fin_accepted (some r) h = h

pub ExactReply-HonestReply :
    {E : Type 0} (len : ℕ) (fin : Bool) (r : Result SendOutcome E)
    → ExactReply len fin r
    → HonestReply len fin r
ExactReply-HonestReply len fin (ok o) h =
    Exact-Honest len o.written fin o.fin_accepted o.remainder h
ExactReply-HonestReply len fin (err e) h = tt

-- A remainder is left only on a stream that is tracked, so that its drain event will come.
abbrev pub Tracked : {E : Type 0} → ℕ → Blocked → Result SendOutcome E → Type 0
Tracked id blocked (ok o) = is_some o.remainder ≡ true → elem id blocked.set ≡ true
Tracked id blocked (err e) = Unit {0}

ltb_irrefl : (len written : ℕ) → written ≡ len → ltb written len ≡ false
ltb_irrefl len written e = ground arith

module _ (api : QuicheApi) (sends_all : SendsAll api) where
  abbrev pub Sent : Quic api → ℕ → ArcBuf → Bool → Reply api → Type 0
  Sent before id buf fin x =
      ExactReply buf.len fin x.1
      × (IsValid before.blocked → IsValid x.0.blocked × Tracked id x.0.blocked x.1)

  learn-blocked : (c : Quic api) (id : ℕ) → (learn api c id).blocked ≡ c.blocked
  unfolding learn
  learn-blocked c id = elim (Bool-cases (is_local_stream api c id)) [
    | inl e ↦ rw e refl
    | inr e ↦ rw e refl
  ]

  -- An answer that leaves the whole buffer, on a stream that is tracked from now on.
  left_over :
      (c : Quic api) (q : api.Conn) (id : ℕ) (buf : ArcBuf) (fin : Bool)
      → Sent c id buf fin
          (track_blocked api (record c { quiche_conn = q }) id, ok (nothing_sent (some buf)))
  unfolding track_blocked
  left_over c q id buf fin = (
    (omega arith, (λ h. h), refl),
    λ v. let (valid, tracked) = track_lem c.blocked id v in (valid, λ h. tracked),
  )

  after_fin-Sent :
      (c : Quic api) (id : ℕ) (buf : ArcBuf) (r : api.Conn × Result ℕ QuicheError)
      → buf.len ≡ 0
      → Sent c id buf true (after_fin api c id buf r)
  after_fin-Sent c id buf (q, ok written) e = (
    (omega (arith, e), refl),
    λ v.
        (subst IsValid (sym (learn-blocked (record c { quiche_conn = q }) id)) v, λ h. absurd (cc)),
  )
  after_fin-Sent c id buf (q, err done) e = left_over c q id buf true
  after_fin-Sent c id buf (q, err (other n)) e = (tt, λ v. (v, tt))

  after_zc-Sent :
      (c : Quic api) (id : ℕ) (buf : ArcBuf) (fin : Bool)
      (r : api.Conn × Result (ℕ × Option ArcBuf) QuicheError)
      → 0 < buf.len
      → ZcReply buf.len r.1
      → Sent c id buf fin (after_zc api c id buf fin r)
  unfolding track_blocked
  after_zc-Sent c id buf fin (q, ok (written, none)) p e = rw (ltb_irrefl buf.len written e) (
    (omega (arith, e), ground arith),
    λ v.
        (subst IsValid (sym (learn-blocked (record c { quiche_conn = q }) id)) v, λ h. absurd (cc)),
  )
  after_zc-Sent c id buf fin (q, ok (written, some rest)) p e =
      let c2 : Quic api = track_blocked api (record c { quiche_conn = q }) id in
      rw (lt→ltb written buf.len (omega (arith, e))) (
        (e.0, (λ h. absurd (omega (arith, e, h))), ground arith),
        λ v.
            let (valid, tracked) = track_lem c.blocked id v in
            (
              subst IsValid (sym (learn-blocked c2 id)) valid,
              λ h. ap (λ b. elem id b.set) (learn-blocked c2 id) ∙ tracked,
            ),
      )
  after_zc-Sent c id buf fin (q, err done) p e = left_over c q id buf fin
  after_zc-Sent c id buf fin (q, err (other n)) p e = (tt, λ v. (v, tt))

  -- Over a quiche that sends a buffer that is not empty whole, or gives back the part that it did not
  -- send, a send reports exactly what was taken and what remains; it keeps the queue and the set of
  -- blocked streams in step, and tracks the stream if anything remains.
  pub stream_send_arcbuf-Sent :
      (c : Quic api) (id : ℕ) (buf : ArcBuf) (fin : Bool)
      → Sent c id buf fin (stream_send_arcbuf api c id buf fin)
  unfolding stream_send_arcbuf
  stream_send_arcbuf-Sent c id buf fin = elim (Bool-cases (buf.len == 0)) [
    | inl e ↦ rw e (empty fin ((==_iff buf.len 0).0 e))
    | inr e ↦ rw e (full (ground (arith, e)))
  ]
    where
      empty :
          (fin : Bool)
          → buf.len ≡ 0
          → Sent c id buf fin (
              if not fin
              then (c, ok (nothing_sent none))
              else after_fin api c id buf (api.stream_send c.quiche_conn id [] true))
      empty false e = ((omega (arith, e), refl), λ v. (v, λ h. absurd (cc)))
      empty true e = after_fin-Sent c id buf (api.stream_send c.quiche_conn id [] true) e

      sent : 0 < buf.len → Sent c id buf fin (send_zc api c id buf fin)
      sent p =
          after_zc-Sent c id buf fin (api.stream_send_zc c.quiche_conn id buf fin) p
            (sends_all c.quiche_conn id buf fin p)

      capacity :
          (r : Result ℕ ℕ)
          → 0 < buf.len
          → elem id c.blocked.set ≡ true
          → Sent c id buf fin (if_capacity api c id buf fin r)
      capacity (err e) p i = (tt, λ v. (v, tt))
      capacity (ok n) p i = elim (Bool-cases (n == 0)) [
        | inl z ↦ rw z ((omega arith, (λ h. h), refl), λ v. (v, λ h. i))
        | inr z ↦ rw z (sent p)
      ]

      full :
          0 < buf.len
          → Sent c id buf fin (
              if elem id c.blocked.set
              then if_capacity api c id buf fin (api.stream_capacity c.quiche_conn id)
              else send_zc api c id buf fin)
      full p = elim (Bool-cases (elem id c.blocked.set)) [
        | inl i ↦ rw i (capacity (api.stream_capacity c.quiche_conn id) p i)
        | inr i ↦ rw i (sent p)
      ]

  -- The flush of a pending write over this connection, `flush_one_quic_pending_write` of
  -- src/quic_worker/pending.rs, settles the units of a well-formed write, if quiche sends a buffer
  -- that is not empty whole or gives back the part that it did not send: what the flush releases and
  -- what stays queued make up what was queued, unless it fails; what stays is well formed, and
  -- nothing stays once it is done; the FIN that the write asks for stays as it was.
  pub quic_flush-Settled :
      (c : Quic api) (id : ℕ) (pw : PendingWrite)
      → http.PendingWrite.Units.IsValid pw.chunks
      → let send : Quic api → ArcBuf → Bool → Reply api =
          λ c buf fin. stream_send_arcbuf api c id buf fin in
        let (c', pw', result) = flush_pending_write_with_progress send c pw in
        Settled send (queued_units pw) pw.fin (c', pw'.chunks, result) × (pw'.fin ≡ pw.fin)
  quic_flush-Settled c id pw v =
      flush-Settled (λ c buf fin. stream_send_arcbuf api c id buf fin)
        (λ c buf fin.
          ExactReply-HonestReply buf.len fin (stream_send_arcbuf api c id buf fin).1
            (stream_send_arcbuf-Sent c id buf fin).0)
        c pw v
