-- ===== src/QuicConnection/Streams.antt =====
-- The streams of a raw QUIC connection that finish or close, src/quic_connection.rs.
use http.Blocked.{without}
use http.QuicConnection.{stream_close, sweep_finished_streams, newly_finished, finish_all, Quic}
use http.Quiche.{QuicheApi}
use http.Blocked.Tracking.{untrack_lem, elem-without, IsValid}
use http.Common.{
  ◌∙◌, ◌≢◌, ==_iff, false, ap, ◌==◌, ◌≤◌, Bool-cases, ◌≡◌, not, length, elem, ◌&&◌, List, Bool, inl,
  inr, true, refl, ℕ, ◌∷◌, [], arith, zero, suc,
}

module _ (api : QuicheApi) where
  -- A stream whose peer has finished it and whose data was all read.
  abbrev pub is_over : api.Conn → ℕ → Bool
  is_over q id = api.stream_finished q id && not (api.stream_readable q id)

  newly_finished-elem :
      (q : api.Conn) (budget k : ℕ) (ids : List ℕ)
      → elem k (newly_finished api q budget ids) ≡ true
      → (elem k ids ≡ true) × (is_over q k ≡ true)
  newly_finished-elem q zero k ids h = absurd (ground arith)
  newly_finished-elem q (suc budget) k [] h = absurd (ground arith)
  newly_finished-elem q (suc budget) k (id ∷ ids) h = elim (Bool-cases (is_over q id)) [
    | inl e ↦ found e (rw e at h) (λ i. newly_finished-elem q budget k ids i)
    | inr e ↦ let (i, o) = newly_finished-elem q (suc budget) k ids (rw e at h) in (ground arith, o)
  ]
    where
      found :
          is_over q id ≡ true
          → elem k (id ∷ newly_finished api q budget ids) ≡ true
          → (elem k (newly_finished api q budget ids) ≡ true
              → (elem k ids ≡ true) × (is_over q k ≡ true))
          → (elem k (id ∷ ids) ≡ true) × (is_over q k ≡ true)
      found e i later = elim (Bool-cases (k == id)) [
        | inl s ↦ (ground (arith, s), ap (is_over q) ((==_iff k id).0 s) ∙ e)
        | inr s ↦ let (j, o) = later (ground (arith, s, i)) in (ground (arith, j), o)
      ]

  newly_finished-length :
      (q : api.Conn) (budget : ℕ) (ids : List ℕ) → length (newly_finished api q budget ids) ≤ budget
  newly_finished-length q zero ids = omega arith
  newly_finished-length q (suc budget) [] = omega arith
  newly_finished-length q (suc budget) (id ∷ ids) =
      ground (arith, newly_finished-length q budget ids, newly_finished-length q (suc budget) ids)

  -- What the second loop does with the streams `ids`.
  record Finishes (c : Quic api) (ids : List ℕ) (r : Quic api × List ℕ) : Type 0 where
    known : (k : ℕ) → elem k r.0.known_streams ≡ (elem k c.known_streams && not (elem k ids))
    pending : (k : ℕ) → elem k r.0.pending_fin ≡ (elem k c.pending_fin && not (elem k ids))
    events : (k : ℕ) → elem k r.1 ≡ (elem k ids && elem k c.known_streams)
    few : length r.1 ≤ length ids

  finish_all-Finishes : (c : Quic api) (ids : List ℕ) → Finishes c ids (finish_all api c ids)
  finish_all-Finishes c [] = record {
    known = λ k. ground arith;
    pending = λ k. ground arith;
    events = λ k. refl;
    few = omega arith;
  }
  finish_all-Finishes c (id ∷ ids) =
      let c1 : Quic api = record c { pending_fin = without id c.pending_fin } in
      let c2 : Quic api = record c1 {
        known_streams = without id c.known_streams;
        quiche_conn = api.stream_shutdown c.quiche_conn id true 0;
      } in
      let skip = finish_all-Finishes c1 ids in
      let go = finish_all-Finishes c2 ids in
      let same = (λ (k : ℕ).
        λ (s : (k == id) ≡ true). ap (λ n. elem n c.known_streams) ((==_iff k id).0 s)) in
      elim (Bool-cases (elem id c.known_streams)) [
        | inl e ↦ rw e (record {
          known = λ k. ground (arith, go.known k, elem-without k id c.known_streams);
          pending = λ k. ground (arith, go.pending k, elem-without k id c.pending_fin);
          events = λ k. ground (arith, e, go.events k, same k, elem-without k id c.known_streams);
          few = omega (arith, go.few);
        })
        | inr e ↦ rw e (record {
          known = λ k. ground (arith, e, skip.known k, same k);
          pending = λ k. ground (arith, skip.pending k, elem-without k id c.pending_fin);
          events = λ k. ground (arith, e, skip.events k, same k);
          few = omega (arith, skip.few);
        })
      ]

  -- A sweep with a budget of events reports at most so many streams, each of which was waiting for
  -- its end, known, finished and read; exactly these known streams are forgotten, and no other stream
  -- is.
  pub sweep_finished_streams_lem :
      (c : Quic api) (budget : ℕ)
      → let (c', events) = sweep_finished_streams api c budget in
        (length events ≤ budget)
        × ((k : ℕ)
            → elem k events ≡ true
            → (elem k c.pending_fin ≡ true)
              × (elem k c.known_streams ≡ true)
              × (is_over c.quiche_conn k ≡ true))
        × ((k : ℕ) → elem k c'.known_streams ≡ (elem k c.known_streams && not (elem k events)))
        × ((k : ℕ) → elem k events ≡ true → elem k c'.pending_fin ≡ false)
  unfolding sweep_finished_streams
  sweep_finished_streams_lem c budget =
      let ids = newly_finished api c.quiche_conn budget c.pending_fin in
      let f = finish_all-Finishes c ids in
      (
        omega (arith, f.few, newly_finished-length c.quiche_conn budget c.pending_fin),
        λ k h.
            let (p, o) =
              newly_finished-elem c.quiche_conn budget k c.pending_fin
                (ground (arith, h, f.events k)) in
            (p, ground (arith, h, f.events k), o),
        λ k. ground (arith, f.known k, f.events k),
        λ k h. ground (arith, h, f.pending k, f.events k),
      )

  -- Closing a stream forgets it: it is neither known nor blocked, and the others are as before.
  pub quic_stream_close_lem :
      (c : Quic api) (id code : ℕ)
      → IsValid c.blocked
      → let c' = stream_close api c id code in
        IsValid c'.blocked
        × (elem id c'.blocked.queue ≡ false)
        × (elem id c'.known_streams ≡ false)
        × ((k : ℕ)
            → k ≢ id
            → (elem k c'.blocked.queue ≡ elem k c.blocked.queue)
              × (elem k c'.known_streams ≡ elem k c.known_streams))
  unfolding stream_close
  quic_stream_close_lem c id code v =
      let (valid, left) = untrack_lem c.blocked id v in
      (
        valid,
        ground (arith, left id),
        ground (arith, elem-without id id c.known_streams),
        λ k h. (
          ground (arith, left k, h, ==_iff k id),
          ground (arith, elem-without k id c.known_streams, h, ==_iff k id),
        ),
      )
