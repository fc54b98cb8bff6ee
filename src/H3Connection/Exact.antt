-- ===== src/H3Connection/Exact.antt =====
-- What a body send on an HTTP/3 connection reports, src/connection.rs.
use http.PendingWrite.{queued_units, flush_pending_write_with_progress, PendingWrite}
use http.ArcBuf.{ArcBuf}
use http.Common.{
  ltb→lt, elem, ◌&&◌, Option, ==_iff, ◌||◌, ◌==◌, ltb, Bool-cases, not, ◌<◌, if◌then◌else◌, Result,
  ◌≡◌, Bool, inl, inr, none, some, true, false, refl, ℕ, arith, ok, err,
}
use http.H3Connection.Sends.{
  join, after_fin, after_zc, send_now, if_capacity, send_over, send_body_arcbuf,
}
use http.H3Connection.{
  BodyReply, CapacityError, H3Error, SendsBody, H3Api, Http3, Sending, block, required, h3_done,
  h3_other, stream_blocked,
}
use http.QuicConnection.Send.{ExactReply, Tracked, ExactReply-HonestReply}
use http.QuicConnection.{nothing_sent}
use http.PendingWrite.Units.{Settled, flush-Settled}
use http.Blocked.Tracking.{IsValid, track_lem}

module _ (api : H3Api) (sends_body : SendsBody api) where
  abbrev pub Sent : Http3 api → ℕ → ℕ → Bool → Sending api → Type 0
  Sent before id len fin x =
      ExactReply len fin x.1
      × (IsValid before.blocked → IsValid x.0.blocked × Tracked id x.0.blocked x.1)

  -- An answer that leaves as much as was to be sent, on a stream that is tracked from now on.
  left_over :
      (before c : Http3 api) (id : ℕ) (len : ℕ) (buf : ArcBuf) (fin : Bool)
      → c.blocked ≡ before.blocked
      → buf.len ≡ len
      → Sent before id len fin (block api c id, ok (nothing_sent (some buf)))
  unfolding block
  left_over before c id len buf fin e l = (
    (omega (arith, l), (λ h. omega (arith, h, l)), refl),
    λ v. let (valid, tracked) = track_lem c.blocked id (rw e v) in (valid, λ h. tracked),
  )

  after_fin-Sent :
      (c : Http3 api) (id : ℕ) (buf : ArcBuf) (r : api.H3 × api.Conn × Result ℕ H3Error)
      → buf.len ≡ 0
      → Sent c id buf.len true (after_fin api c id buf r)
  after_fin-Sent c id buf (h, q, ok written) e =
      ((omega (arith, e), refl), λ v. (v, λ h. absurd (cc)))
  after_fin-Sent c id buf (h, q, err h3_done) e =
      left_over c (join api c h q) id buf.len buf true refl refl
  after_fin-Sent c id buf (h, q, err stream_blocked) e = (tt, λ v. (v, tt))
  after_fin-Sent c id buf (h, q, err (h3_other n)) e = (tt, λ v. (v, tt))

  after_zc-Sent :
      (c : Http3 api) (id len : ℕ) (fin : Bool) (h : api.H3) (q : api.Conn) (rest : ArcBuf)
      (r : Result ℕ H3Error)
      → 0 < len
      → BodyReply len rest.len r
      → Sent c id len fin (after_zc api c id len fin (h, q, rest, r))
  unfolding block
  after_zc-Sent c id len fin h q rest (ok written) p e = elim (Bool-cases (ltb written len)) [
    | inl l ↦ rw l (
      (
        e (ltb→lt written len l),
        (λ z. absurd (ground (arith, l, z, e (ltb→lt written len l)))),
        refl,
      ),
      λ v. let (valid, tracked) = track_lem c.blocked id v in (valid, λ s. tracked),
    )
    | inr l ↦ rw l ((ground (arith, l), refl), λ v. (v, λ s. absurd (cc)))
  ]
  after_zc-Sent c id len fin h q rest (err h3_done) p e =
      left_over c (join api c h q) id len rest fin refl e
  after_zc-Sent c id len fin h q rest (err stream_blocked) p e = (tt, λ v. (v, tt))
  after_zc-Sent c id len fin h q rest (err (h3_other n)) p e = (tt, λ v. (v, tt))

  send_now-Sent :
      (c : Http3 api) (h : api.H3) (id : ℕ) (buf : ArcBuf) (fin : Bool)
      → Sent c id buf.len fin (send_now api c h id buf fin)
  send_now-Sent c h id buf fin = elim (Bool-cases (buf.len == 0)) [
    | inl e ↦ rw e (empty fin ((==_iff buf.len 0).0 e))
    | inr e ↦ rw e (
        by_reply (api.send_body_zc h c.quiche_conn id buf fin)
          (sends_body h c.quiche_conn id buf fin (ground (arith, e))) (ground (arith, e)))
  ]
    where
      empty :
          (fin : Bool)
          → buf.len ≡ 0
          → Sent c id buf.len fin (
              if not fin
              then (c, ok (nothing_sent none))
              else after_fin api c id buf (api.send_body h c.quiche_conn id))
      empty false e = ((omega (arith, e), refl), λ v. (v, λ h. absurd (cc)))
      empty true e = after_fin-Sent c id buf (api.send_body h c.quiche_conn id) e

      by_reply :
          (r : api.H3 × api.Conn × ArcBuf × Result ℕ H3Error)
          → BodyReply buf.len r.2.len r.3
          → 0 < buf.len
          → Sent c id buf.len fin (after_zc api c id buf.len fin r)
      by_reply (h', q', rest, reply) e p = after_zc-Sent c id buf.len fin h' q' rest reply p e

  -- Over a quiche that leaves the unwritten part of the buffer after a partial write, and the whole
  -- buffer after `Done`, a body send reports exactly what was taken and what remains, also when the trailers have ended the stream or the capacity
  -- does not do for a frame; it keeps the queue and the set of blocked streams in step, and tracks
  -- the stream if anything remains.
  pub send_body_arcbuf-Sent :
      (c : Http3 api) (id : ℕ) (buf : ArcBuf) (fin : Bool)
      → Sent c id buf.len fin (send_body_arcbuf api c id buf fin)
  unfolding send_body_arcbuf
  send_body_arcbuf-Sent c id buf fin = over c.h3_conn
    where
      capacity :
          (h : api.H3) (r : Result ℕ CapacityError)
          → Sent c id buf.len fin (if_capacity api c h id buf fin r)
      capacity h (err e) = (tt, λ v. (v, tt))
      capacity h (ok n) = elim (Bool-cases (ltb n (required buf.len))) [
        | inl e ↦ rw e (left_over c c id buf.len buf fin refl refl)
        | inr e ↦ rw e (send_now-Sent c h id buf fin)
      ]

      tried :
          (h : api.H3)
          → Sent c id buf.len fin (
              if ltb 0 buf.len || fin
              then if_capacity api c h id buf fin (api.stream_capacity c.quiche_conn id)
              else send_now api c h id buf fin)
      tried h = elim (Bool-cases (ltb 0 buf.len || fin)) [
        | inl e ↦ rw e (capacity h (api.stream_capacity c.quiche_conn id))
        | inr e ↦ rw e (send_now-Sent c h id buf fin)
      ]

      over : (h : Option api.H3) → Sent c id buf.len fin (send_over api c h id buf fin)
      over none = (tt, λ v. (v, tt))
      over (some h) = elim (Bool-cases ((buf.len == 0) && fin && elem id c.trailer_fin_streams)) [
        | inl e ↦ rw e ((ground (arith, e), ground (arith, e)), λ v. (v, λ s. absurd (cc)))
        | inr e ↦ rw e (tried h)
      ]

  -- The flush of a pending write over this connection, `flush_one_pending_write` of
  -- src/worker/pending.rs, settles the units of the write.
  pub h3_flush-Settled :
      (c : Http3 api) (id : ℕ) (pw : PendingWrite)
      → http.PendingWrite.Units.IsValid pw.chunks
      → let send : Http3 api → ArcBuf → Bool → Sending api =
          λ c buf fin. send_body_arcbuf api c id buf fin in
        let (c', pw', result) = flush_pending_write_with_progress send c pw in
        Settled send (queued_units pw) pw.fin (c', pw'.chunks, result) × (pw'.fin ≡ pw.fin)
  h3_flush-Settled c id pw v =
      flush-Settled (λ c buf fin. send_body_arcbuf api c id buf fin)
        (λ c buf fin.
          ExactReply-HonestReply buf.len fin (send_body_arcbuf api c id buf fin).1
            (send_body_arcbuf-Sent c id buf fin).0)
        c pw v
