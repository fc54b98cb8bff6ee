-- ===== src/Token/Sound.antt =====
-- What a payload accepted by src/proof_core/retry_token_model.rs must have been.
use native.Mathlib.Nat.{mod-eq_of_lt}
use http.Token.Slices.{drop-get_elem?, get_elem?-IsByte, All-slice, length-slice, drop-eq-slice}
use http.Token.Words.{to_be_bytes-from_be_bytes}
use http.Token.RoundTrip.{layout, port_of, ip_of, family_of}
use http.Token.{
  v6, v4, check_family, to_be_bytes, build_token_payload, slice, from_be_bytes, parse_token_payload,
  SocketAddr, check_addr, parse_stamp, parse_odcid,
}
use http.Common.{
  inr, inl, Option-cases, sym, ltb, ap, ap₂, if◌then◌else◌, ◌∙◌, get_elem?, bytes_eq_sound, arith,
  none, ◌++◌, [], drop, ◌∷◌, ◌+◌, ◌≤◌, length, ◌^◌, some, IsByte, ◌<◌, ◌≡◌, All, List, ℕ,
}

parse_odcid_inv :
    (payload : List ℕ) (pos : ℕ) (odcid : List ℕ)
    → All IsByte payload
    → parse_odcid payload pos ≡ some odcid
    → (length odcid < 256)
      × (drop pos payload ≡ length odcid ∷ (odcid ++ drop (pos + 1 + length odcid) payload))
unfolding parse_odcid
parse_odcid_inv payload pos odcid h e = elim (Option-cases (get_elem? payload pos)) [
  | inl miss ↦ absurd (none≢some (rw (miss, parse_odcid) at e))
  | inr (n, hit) ↦ found n hit (rw (hit, parse_odcid) at e)
]
  where
    none≢some : none ≡ some odcid → ⊥
    none≢some k = cc

    found :
        (n : ℕ)
        → get_elem? payload pos ≡ some n
        → (if ltb (length payload) (pos + 1 + n) then none else some (slice payload (pos + 1) n))
          ≡ some odcid
        → (length odcid < 256)
          × (drop pos payload ≡ length odcid ∷ (odcid ++ drop (pos + 1 + length odcid) payload))
    found n hit k =
        let fits : pos + 1 + n ≤ length payload = ground arith in
        let cut : slice payload (pos + 1) n ≡ odcid = ground arith in
        let len : length odcid ≡ n = ap length (sym cut) ∙ length-slice payload (pos + 1) n fits in
        (
          rw len (get_elem?-IsByte payload pos n h hit),
          rw len (
              drop-get_elem? payload pos n hit
              ∙ ap (λ r. n ∷ r)
                  (drop-eq-slice payload (pos + 1) n
                    ∙ ap (λ s. s ++ drop (pos + 1 + n) payload) cut)),
        )

-- The stamp that a payload holds at a position.
abbrev stamp_at : List ℕ → ℕ → ℕ
stamp_at payload pos = from_be_bytes (slice payload pos 8)

parse_stamp_inv :
    (payload : List ℕ) (now lifetime pos : ℕ) (odcid : List ℕ)
    → All IsByte payload
    → parse_stamp payload now lifetime pos ≡ some odcid
    → (stamp_at payload pos < 2 ^ 64)
      × (now ≤ stamp_at payload pos + lifetime)
      × (stamp_at payload pos ≤ now + lifetime)
      × (length odcid < 256)
      × (drop pos payload
          ≡ to_be_bytes 8 (stamp_at payload pos)
            ++ (length odcid ∷ (odcid ++ drop (pos + 8 + 1 + length odcid) payload)))
unfolding parse_stamp
parse_stamp_inv payload now lifetime pos odcid h e = (
  small,
  ground arith,
  ground arith,
  tail.0,
  drop-eq-slice payload pos 8 ∙ ap₂ ◌++◌ (sym words.1) tail.1,
)
  where
    fits : pos + 8 ≤ length payload
    fits = ground arith

    inner : parse_odcid payload (pos + 8) ≡ some odcid
    inner = ground arith

    tail :
        (length odcid < 256)
        × (drop (pos + 8) payload
            ≡ length odcid ∷ (odcid ++ drop (pos + 8 + 1 + length odcid) payload))
    tail = parse_odcid_inv payload (pos + 8) odcid h inner

    words :
        (stamp_at payload pos < 256 ^ 8)
        × (to_be_bytes 8 (stamp_at payload pos) ≡ slice payload pos 8)
    words =
        to_be_bytes-from_be_bytes 8 (slice payload pos 8) (length-slice payload pos 8 fits)
          (All-slice payload pos 8 h)

    small : stamp_at payload pos < 2 ^ 64
    small = words.0

check_addr_inv :
    (payload : List ℕ) (n : ℕ) (ip : List ℕ) (port pos : ℕ)
    → check_addr payload n ip port ≡ some pos
    → (pos ≡ 1 + n + 2) × (drop 1 payload ≡ ip ++ (to_be_bytes 2 port ++ drop (1 + n + 2) payload))
unfolding check_addr
check_addr_inv payload n ip port pos e = (
  ground arith,
  drop-eq-slice payload 1 n
      ∙ ap₂ ◌++◌ host
          (drop-eq-slice payload (1 + n) 2 ∙ ap (λ s. s ++ drop (1 + n + 2) payload) door),
)
  where
    host : slice payload 1 n ≡ ip
    host = bytes_eq_sound _ _ (ground arith)

    door : slice payload (1 + n) 2 ≡ to_be_bytes 2 port
    door = bytes_eq_sound _ _ (ground arith)

-- A payload that was made for the peer at a time close to `now`, followed by any bytes.
abbrev pub MintedFor : List ℕ → SocketAddr → ℕ → ℕ → List ℕ → Type 0
MintedFor payload peer now lifetime odcid =
    (ts : ℕ) × (extra : List ℕ) × (ts < 2 ^ 64)
    × (length odcid < 256)
    × (now ≤ ts + lifetime)
    × (ts ≤ now + lifetime)
    × (payload ≡ build_token_payload peer ts odcid ++ extra)

-- A payload whose first bytes are those of the peer, and whose rest parses.
assemble :
    (peer : SocketAddr) (payload rest : List ℕ) (now lifetime n : ℕ) (odcid : List ℕ)
    → All IsByte payload
    → payload ≡ family_of peer ∷ rest
    → drop 1 payload ≡ ip_of peer ++ (to_be_bytes 2 (port_of peer) ++ drop n payload)
    → parse_stamp payload now lifetime n ≡ some odcid
    → MintedFor payload peer now lifetime odcid
assemble peer payload rest now lifetime n odcid h e front k =
    let (small, early, late, len, tail) = parse_stamp_inv payload now lifetime n odcid h k in
    (
      stamp_at payload n,
      drop (n + 8 + 1 + length odcid) payload,
      small,
      len,
      early,
      late,
      e
          ∙ ap (λ r. family_of peer ∷ r)
              (sym (ap (drop 1) e)
                ∙ front
                ∙ ap (λ r. ip_of peer ++ (to_be_bytes 2 (port_of peer) ++ r)) tail)
          ∙ sym (layout peer (stamp_at payload n) odcid _ ∙ rw (mod-eq_of_lt len)),
    )

check_family_inv :
    (payload : List ℕ) (family : ℕ) (peer : SocketAddr) (pos : ℕ)
    → check_family payload family peer ≡ some pos
    → (family ≡ family_of peer)
      × (drop 1 payload ≡ ip_of peer ++ (to_be_bytes 2 (port_of peer) ++ drop pos payload))
unfolding check_family
check_family_inv payload family (v4 ip port) pos e =
    let checked : check_addr payload 4 ip port ≡ some pos = ground arith in
    let (place, front) = check_addr_inv payload 4 ip port pos checked in
    (ground arith, rw place front)
check_family_inv payload family (v6 ip port) pos e =
    let checked : check_addr payload 16 ip port ≡ some pos = ground arith in
    let (place, front) = check_addr_inv payload 16 ip port pos checked in
    (ground arith, rw place front)

-- A payload that the parser accepts begins with one minted for this very peer within the lifetime,
-- in either direction of the clock, with the connection id that the parser returns. Of the
-- bytes that follow it nothing is said.
pub parse_sound :
    (payload : List ℕ) (peer : SocketAddr) (now lifetime : ℕ) (odcid : List ℕ)
    → All IsByte payload
    → parse_token_payload payload peer now lifetime ≡ some odcid
    → MintedFor payload peer now lifetime odcid
unfolding parse_token_payload
parse_sound [] peer now lifetime odcid h e = absurd (none≢some e)
  where
    none≢some : none ≡ some odcid → ⊥
    none≢some k = cc
parse_sound (f ∷ rest) peer now lifetime odcid h e =
    elim (Option-cases (check_family (f ∷ rest) f peer)) [
      | inl miss ↦ absurd (missed miss)
      | inr (pos, hit) ↦
          let (same, front) = check_family_inv (f ∷ rest) f peer pos hit in
          let rest_parses : parse_stamp (f ∷ rest) now lifetime pos ≡ some odcid = ground arith in
          assemble peer (f ∷ rest) rest now lifetime pos odcid h (ap (λ k. k ∷ rest) same) front
            rest_parses
    ]
  where
    missed : check_family (f ∷ rest) f peer ≡ none → ⊥
    missed miss = ground arith
