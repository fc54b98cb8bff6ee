-- ===== src/Server/Flushed.antt =====
-- The account of `flush_all_pending_writes` of src/worker.rs with the write admission.
use http.H3Connection.Exact.{send_body_arcbuf-Sent}
use http.H3Connection.Sends.{send_body_arcbuf}
use http.QuicConnection.Send.{ExactReply-HonestReply}
use http.PendingWrite.Units.{IsValid, HonestReply}
use http.ArcBuf.{ArcBuf}
use http.Server.Commands.{is_h3_stream_blocked}
use http.Error.{Http3NativeError}
use http.Admission.{AdmissionWatermarks}
use http.H3Connection.{Http3, SendsBody, H3Api}
use http.Common.{
  none, ◌==◌, err, sym, find, inr, ap, subst, inl, ◌∙◌, Bool-cases, some, Bool, ok, ◌++◌, Result,
  Option, ◌+◌, ◌≡◌, total, List, All, refl, ℕ, ◌∷◌, [], arith,
}
use http.Server.Flush.{
  stream_closed_on, has_connection, send_there, flush_all_pending_writes, Connections,
  flush_responses, flush_response_on, gone_stream, to_stream, FlushedWrites, respond, send_body,
  Responses, Flushing, dropped, after_response_flush, after_writes_flush, send_to_stream,
}
use http.Server.Ledger.{release-Owes, Owes, release_units-queued}
use http.Server.{
  emit_h3_send_error_and_reset, set_connection, connection_of, release_outbound_admission, Server,
  StreamKey, same_key, response_units,
}
use http.PendingWrite.Response.{
  flush_response-Accounted, PendingResponse, body_units, BodyValid, Accounted,
}
use http.PendingWrite.Streams.Balance.{flush_streams-Balanced, total_units, AllValid, Balanced}
use http.PendingWrite.Flushers.{flush_pending_writes}
use http.PendingWrite.{FlushOutcome, PendingWrite, queued_units}

module _ (api : H3Api) where
  -- The chunks of what waits are well formed.
  abbrev pub Valid : Server api → Type 0
  Valid s =
      All (λ e. IsValid e.1.chunks) s.pending_writes
      × All (λ e. BodyValid e.1.body) s.pending_responses

  -- Two ways to say that every write is well formed.
  to_AllValid :
      (pending : List (StreamKey × PendingWrite))
      → All (λ e. IsValid e.1.chunks) pending
      → AllValid pending
  to_AllValid [] v = tt
  to_AllValid (e ∷ rest) v = (v.0, to_AllValid rest v.1)

  from_AllValid :
      (pending : List (StreamKey × PendingWrite))
      → AllValid pending
      → All (λ e. IsValid e.1.chunks) pending
  from_AllValid [] v = tt
  from_AllValid (e ∷ rest) v = (v.0, from_AllValid rest v.1)

  total_same :
      (pending : List (StreamKey × PendingWrite))
      → total same_key queued_units pending ≡ total_units pending
  total_same [] = refl
  total_same ((k, pw) ∷ rest) = omega (arith, total_same rest)

  module _ (sends_body : SendsBody api) (m : AdmissionWatermarks) where
    -- The window holds `n` units besides those of the pending writes.
    abbrev Held : Server api → ℕ → Type 0
    Held s n = s.admission.queued ≡ total same_key queued_units s.pending_writes + n

    abbrev units_in : Responses api m → ℕ
    units_in rs = total same_key (response_units api) rs

    abbrev Bodies : Responses api m → Type 0
    Bodies rs = All (λ e. BodyValid e.1.body) rs

    -- The responses that go on waiting have the units that are left.
    abbrev Kept : Server api → ℕ → Flushing api m → Type 0
    Kept before n (s, kept, events) =
        Held s (units_in kept + n) × Bodies kept × (s.pending_writes ≡ before.pending_writes)

    release-Held :
        (s : Server api) (units n : ℕ)
        → Held s (units + n)
        → Held (release_outbound_admission api m s units).0 n
          × ((release_outbound_admission api m s units).0.pending_writes ≡ s.pending_writes)
    unfolding release_outbound_admission
    release-Held s units n h =
        (omega (arith, h, release_units-queued api m s.admission units), refl)

    dropped-Kept :
        (s : Server api) (units n : ℕ)
        → Held s (units + n)
        → Kept s n (dropped api m (release_outbound_admission api m s units))
    dropped-Kept s units n h =
        let (held, same) = release-Held s units n h in (omega (arith, held), tt, same)

    after-Kept :
        (s : Server api) (key : StreamKey) (n : ℕ) (before : Option PendingWrite)
        (x : Http3 api × PendingResponse api.Headers × Result FlushOutcome Http3NativeError)
        → Accounted
            (respond api m key.1)
            (is_h3_stream_blocked api m)
            (send_body api m key.1)
            before
            x
        → Held s (body_units before + n)
        → Kept s n (after_response_flush api m s key (body_units before) x)
    unfolding emit_h3_send_error_and_reset
    after-Kept s key n before (c, r, ok o) a h =
        let s1 = set_connection api s key.0 c in
        elim (Bool-cases o.done) [
          | inl d ↦
              let (held, same) =
                release-Held s1 o.released_units n
                  (omega (arith, h, a.0, ap body_units (a.2 d).1)) in
              rw d (omega (arith, held), tt, same)
          | inr d ↦
              let (held, same) =
                release-Held s1 o.released_units (body_units r.body + n) (omega (arith, h, a.0)) in
              rw d (omega (arith, held), (a.1, tt), same)
        ]
    after-Kept s key n before (c, r, err e) a h =
        let (held, same) = release-Held s (body_units before) n h in
        (error (release_outbound_admission api m s (body_units before)).0 held, tt, same)
      where
        error :
            (s' : Server api)
            → Held s' n
            → Held (emit_h3_send_error_and_reset api s' c key.0 key.1).0 (0 + n)
        error s' h' = omega (arith, h')

    honest_body :
        (stream : ℕ) (c : Http3 api) (buf : ArcBuf) (fin : Bool)
        → HonestReply buf.len fin (send_body api m stream c buf fin).1
    honest_body stream c buf fin =
        ExactReply-HonestReply buf.len fin (send_body_arcbuf api c stream buf fin).1
          (send_body_arcbuf-Sent api sends_body c stream buf fin).0

    on_connection-Kept :
        (s : Server api) (key : StreamKey) (r : PendingResponse api.Headers) (n : ℕ)
        (conn : Option (Http3 api))
        → BodyValid r.body
        → Held s (body_units r.body + n)
        → Kept s n (flush_response_on api m s key r conn)
    on_connection-Kept s key r n none v h = dropped-Kept s (body_units r.body) n h
    on_connection-Kept s key r n (some c) v h =
        elim (Bool-cases (api.stream_closed c.quiche_conn key.1)) [
          | inl e ↦ rw e (dropped-Kept s (body_units r.body) n h)
          | inr e ↦ rw e (
              after-Kept s key n r.body _
                (flush_response-Accounted (respond api m key.1) (is_h3_stream_blocked api m)
                  (send_body api m key.1) (honest_body key.1) c r v)
                h)
        ]

    total-append : (xs ys : Responses api m) → units_in (xs ++ ys) ≡ units_in xs + units_in ys
    total-append [] ys = omega arith
    total-append (x ∷ xs) ys = omega (arith, total-append xs ys)

    append-Bodies : (xs ys : Responses api m) → Bodies xs → Bodies ys → Bodies (xs ++ ys)
    append-Bodies [] ys b c = c
    append-Bodies (x ∷ xs) ys b c = (b.0, append-Bodies xs ys b.1 c)

    flush_responses-Kept :
        (s : Server api) (rs : Responses api m) (n : ℕ)
        → Bodies rs
        → Held s (units_in rs + n)
        → Kept s n (flush_responses api m s rs)
    flush_responses-Kept s [] n v h = (h, tt, refl)
    flush_responses-Kept s ((key, r) ∷ rest) n v h =
        let (s1, kept, events) = flush_response_on api m s key r (connection_of api s key.0) in
        let (s2, others, later) = flush_responses api m s1 rest in
        let (held, bodies, same) =
          on_connection-Kept s key r (units_in rest + n) (connection_of api s key.0) v.0
            (omega (arith, h)) in
        let (held', bodies', same') =
          flush_responses-Kept s1 rest (units_in kept + n) v.1 (omega (arith, held)) in
        (
          omega (arith, held', total-append kept others),
          append-Bodies kept others bodies bodies',
          same' ∙ same,
        )

    honest_stream :
        (handle stream : ℕ) (s : Connections api m) (buf : ArcBuf) (fin : Bool)
        → HonestReply buf.len fin (send_to_stream api m handle stream s buf fin).1
    honest_stream handle stream s buf fin = there (find ◌==◌ handle s)
      where
        there :
            (conn : Option (Http3 api))
            → HonestReply buf.len fin (send_there api m handle stream s conn buf fin).1
        there none = tt
        there (some c) = honest_body stream c buf fin

    after_writes-Owes :
        (s : Server api) (n : ℕ) (x : FlushedWrites api m)
        → Balanced (gone_stream api m) (to_stream api m) (total_units s.pending_writes) x
        → Owes api s n
        → Owes api (after_writes_flush api m s x).0 n
          × AllValid (after_writes_flush api m s x).0.pending_writes
          × ((after_writes_flush api m s x).0.pending_responses ≡ s.pending_responses)
    unfolding release_outbound_admission
    after_writes-Owes s n (conns, left, flushed) (b, v) h =
        let s' : Server api = record s { connections = conns; pending_writes = left } in
        (
          release-Owes api m s' flushed.released_units n
              (omega (arith, h, b, total_same left, total_same s.pending_writes)),
          v,
          refl,
        )

    -- A flush of all that waits keeps the account, if what waits is well formed, over a quiche that
    -- leaves the unwritten part of a buffer after a partial write and the whole buffer after `Done`:
    -- the window then holds the units of what still waits and the same others as before, and what
    -- waits is well formed.
    pub flush_all-Owes :
        (s : Server api) (n : ℕ)
        → Valid s
        → Owes api s n
        → Owes api (flush_all_pending_writes api m s).0 n
          × Valid (flush_all_pending_writes api m s).0
    unfolding flush_all_pending_writes flush_pending_writes
    flush_all-Owes s n v h =
        let (s1, kept, events) = flush_responses api m s s.pending_responses in
        let (held, bodies, same) =
          flush_responses-Kept s s.pending_responses n v.1 (omega (arith, h)) in
        let s2 : Server api = record s1 { pending_responses = kept } in
        let balanced =
          flush_streams-Balanced (gone_stream api m) (to_stream api m) (λ k. honest_stream k.0 k.1)
            s2.connections s2.pending_writes
            (subst AllValid (sym same) (to_AllValid s.pending_writes v.0)) in
        let (owes, valid, left) =
          after_writes-Owes s2 n
            (flush_pending_writes (has_connection api m) (stream_closed_on api m)
              (send_to_stream api m) s2.connections s2.pending_writes)
            balanced (omega (arith, held)) in
        (owes, (from_AllValid _ valid, subst Bodies (sym left) bodies))
