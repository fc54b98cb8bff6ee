-- ===== src/QuicConnection/Datagrams.antt =====
-- The bounded queue of outbound datagrams, src/quic_connection.rs.
use http.ArcBuf.{from_chunk, Chunk}
use http.QuicConnection.{after_dgram, Quic, queue_datagram}
use http.Quiche.{QuicheError, QuicheApi}
use http.Common.{
  length-append, leb→le, Bool-cases, Result, ◌<◌, leb, ◌≤◌, length, ◌≡◌, inl, inr, true, false,
  refl, ℕ, ◌∷◌, [], ok, err, arith,
}

module _ (api : QuicheApi) where
  -- Queueing a datagram never grows the queue past its limit; it is refused, with nothing changed,
  -- only if quiche's own queue and this one are both full.
  pub queue_datagram_lem :
      (c : Quic api) (chunk : Chunk)
      → length c.outbound_datagrams ≤ 64
      → let (c', r) = queue_datagram api c chunk in
        (length c'.outbound_datagrams ≤ 64)
        × (r ≡ ok false
            → (c' ≡ c)
              × (length c.outbound_datagrams ≡ 64)
              × (api.is_dgram_send_queue_full c.quiche_conn ≡ true))
  unfolding queue_datagram
  queue_datagram_lem c chunk h = elim (Bool-cases (api.is_dgram_send_queue_full c.quiche_conn)) [
    | inl full ↦ elim (Bool-cases (leb 64 (length c.outbound_datagrams))) [
      | inl at ↦ rw (full, at) (h, λ e. (refl, omega (arith, h, leb→le _ _ at), refl))
      | inr room ↦
          rw (full, room)
            (
              omega (
                arith,
                length-append c.outbound_datagrams (from_chunk chunk ∷ []),
                gt_of (length c.outbound_datagrams) room,
              ),
              λ e. absurd (cc),
            )
    ]
    | inr free ↦ rw free (sent (api.dgram_send_buf c.quiche_conn (from_chunk chunk)))
  ]
    where
      gt_of : (n : ℕ) → leb 64 n ≡ false → n < 64
      gt_of n e = ground (arith, e)

      sent :
          (r : api.Conn × Result (Unit {0}) QuicheError)
          → let (c', r) = after_dgram api c r in
            (length c'.outbound_datagrams ≤ 64)
            × (r ≡ ok false → (c' ≡ c) × (length c.outbound_datagrams ≡ 64) × (false ≡ true))
      sent (q, ok u) = (h, λ e. absurd (ground (arith, e)))
      sent (q, err e) = (h, λ e. absurd (cc))
