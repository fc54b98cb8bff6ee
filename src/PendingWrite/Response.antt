-- ===== src/PendingWrite/Response.antt =====
-- A response that waits for its headers or its body, `flush_one_h3_pending_response` of
-- src/worker/pending.rs. The connection is a state `S` with two operations.
use http.Admission.{outbound_payload_units}
use http.PendingWrite.Units.{flush-Settled, Settled, HonestReply}
use http.ArcBuf.{ArcBuf}
use http.PendingWrite.{
  sum_len, queued_units, flush_pending_write_with_progress, FlushOutcome, SendOutcome, PendingWrite,
}
use http.Common.{
  ap, is_some, ◌&&◌, Bool-cases, ◌≡◌, not, ◌+◌, if◌then◌else◌, Result, Option, Bool, inl, inr, none,
  some, true, false, refl, ℕ, ok, err, arith,
}

-- `PendingResponse` of src/worker.rs; the headers are of a type of the connection's.
pub record PendingResponse (Headers : Type 0) : Type 0 where
  pub headers : Headers
  pub headers_fin : Bool
  pub headers_sent : Bool
  pub body : Option PendingWrite

abbrev pub body_units : Option PendingWrite → ℕ
body_units none = 0
body_units (some pw) = queued_units pw

abbrev pub BodyValid : Option PendingWrite → Type 0
BodyValid none = Unit {0}
BodyValid (some pw) = http.PendingWrite.Units.IsValid pw.chunks

module _ {S E Headers : Type 0} (send_response : S → Headers → Bool → S × Result (Unit {0}) E)
    (is_blocked : E → Bool) (send : S → ArcBuf → Bool → S × Result SendOutcome E) where
  abbrev pub Flush : Type 0
  Flush = S × PendingResponse Headers × Result FlushOutcome E

  -- After the body was flushed: it is taken out once it is done.
  abbrev pub after_body : PendingResponse Headers → S × PendingWrite × Result FlushOutcome E → Flush
  after_body r (s, pw, err e) = (s, record r { body = some pw }, err e)
  after_body r (s, pw, ok o) = (s, record r { body = if o.done then none else some pw }, ok o)

  -- The part after the headers.
  abbrev pub flush_body : S → PendingResponse Headers → Option PendingWrite → Flush
  flush_body s r none = (s, r, ok (record { done = true; released_units = 0 }))
  flush_body s r (some pw) = after_body r (flush_pending_write_with_progress send s pw)

  abbrev pub after_headers : PendingResponse Headers → S × Result (Unit {0}) E → Flush
  after_headers r (s, ok u) =
      let r' : PendingResponse Headers = record r { headers_sent = true } in flush_body s r' r.body
  after_headers r (s, err e) =
      if is_blocked e
      then (s, r, ok (record { done = false; released_units = 0 }))
      else (s, r, err e)

  unfoldable pub flush_one_h3_pending_response : S → PendingResponse Headers → Flush
  flush_one_h3_pending_response s r =
      if not r.headers_sent
      then after_headers r (send_response s r.headers (r.headers_fin && not (is_some r.body)))
      else flush_body s r r.body

  -- The units of the body are released or still queued, and a response is done only when its
  -- headers were sent and no body is left.
  abbrev pub Accounted : Option PendingWrite → Flush → Type 0
  Accounted before (s, r, err e) = BodyValid r.body
  Accounted before (s, r, ok o) =
      (o.released_units + body_units r.body ≡ body_units before)
      × BodyValid r.body
      × (o.done ≡ true → (r.headers_sent ≡ true) × (r.body ≡ none))

  module _
      (honest : (s : S) (b : ArcBuf) (send_fin : Bool)
        → HonestReply b.len send_fin (send s b send_fin).1) where
    after_body-Accounted :
        (r : PendingResponse Headers) (pw : PendingWrite)
        (out : S × PendingWrite × Result FlushOutcome E)
        → r.headers_sent ≡ true
        → Settled send (queued_units pw) pw.fin (out.0, out.1.chunks, out.2)
        → out.1.fin ≡ pw.fin
        → Accounted (some pw) (after_body r out)
    after_body-Accounted r pw (s, pw', err e) sent h q = h
    after_body-Accounted r pw (s, pw', ok o) sent h q = elim (Bool-cases o.done) [
      | inl e ↦ rw e (omega (arith, rw e at h.0), tt, λ d. (sent, refl))
      | inr e ↦ rw e (
        omega (arith, rw e at h.0, ap (outbound_payload_units (sum_len pw'.chunks)) q),
        h.1,
        λ d. absurd (cc),
      )
    ]

    flush_body-Accounted :
        (s : S) (r : PendingResponse Headers) (body : Option PendingWrite)
        → r.headers_sent ≡ true
        → r.body ≡ body
        → BodyValid body
        → Accounted body (flush_body s r body)
    flush_body-Accounted s r none sent e v = (rw e refl, rw e tt, λ d. (sent, e))
    flush_body-Accounted s r (some pw) sent e v =
        let (settled, same) = flush-Settled send honest s pw v in
        after_body-Accounted r pw (flush_pending_write_with_progress send s pw) sent settled same

    -- A flush of a response accounts for every unit of its body, keeps the body well formed, and is
    -- done only when the headers were sent and no body is left.
    pub flush_response-Accounted :
        (s : S) (r : PendingResponse Headers)
        → BodyValid r.body
        → Accounted r.body (flush_one_h3_pending_response s r)
    unfolding flush_one_h3_pending_response
    flush_response-Accounted s r v = by_headers r.headers_sent refl
      where
        headers : (reply : S × Result (Unit {0}) E) → Accounted r.body (after_headers r reply)
        headers (s', ok u) =
            flush_body-Accounted s' (record r { headers_sent = true }) r.body refl refl v
        headers (s', err e) = elim (Bool-cases (is_blocked e)) [
          | inl b ↦ rw b (omega arith, v, λ d. absurd (cc))
          | inr b ↦ rw b v
        ]

        by_headers :
            (sent : Bool)
            → r.headers_sent ≡ sent
            → Accounted r.body (
                if not sent
                then after_headers r
                    (send_response s r.headers (r.headers_fin && not (is_some r.body)))
                else flush_body s r r.body)
        by_headers true sent = flush_body-Accounted s r r.body sent refl v
        by_headers false sent =
            headers (send_response s r.headers (r.headers_fin && not (is_some r.body)))
