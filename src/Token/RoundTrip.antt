-- ===== src/Token/RoundTrip.antt =====
-- Building and parsing the payload of src/proof_core/retry_token_model.rs.
use native.Mathlib.Nat.{mod-eq_of_lt}
use http.Token.Words.{from_be_bytes-to_be_bytes, length-to_be_bytes}
use http.Token.Slices.{slice-append, get_elem?-drop, length-ge, drop-append}
use http.Token.{
  v6, v4, slice, build_token_payload, parse_token_payload, to_be_bytes, IsAddr, SocketAddr,
  check_addr, parse_stamp, parse_odcid,
}
use http.Common.{
  ◌∙◌, ◌%◌, bytes_eq_refl, ap, append_assoc, length-append, arith, [], ◌+◌, some, ◌≤◌, ◌^◌, ◌++◌,
  ◌<◌, ◌∷◌, length, ◌≡◌, drop, List, ℕ,
}

-- The connection id, with its length in front, stands at the position.
parse_odcid_lem :
    (payload : List ℕ) (pos : ℕ) (odcid extra : List ℕ)
    → drop pos payload ≡ length odcid ∷ (odcid ++ extra)
    → pos ≤ length payload
    → parse_odcid payload pos ≡ some odcid
unfolding parse_odcid
parse_odcid_lem payload pos odcid extra h le =
    rw (get_elem?-drop payload (odcid ++ extra) pos (length odcid) h, parse_odcid)
      (ground (arith, long, slice-append payload odcid extra (pos + 1) after))
  where
    after : drop (pos + 1) payload ≡ odcid ++ extra
    after = drop-append payload (length odcid ∷ []) (odcid ++ extra) pos h

    long : pos + 1 + length odcid ≤ length payload
    long = omega (
      arith,
      length-ge payload (length odcid ∷ []) (odcid ++ extra) pos le h,
      length-append odcid extra,
    )

parse_stamp_lem :
    (payload : List ℕ) (now lifetime pos ts : ℕ) (odcid extra : List ℕ)
    → drop pos payload ≡ to_be_bytes 8 ts ++ (length odcid ∷ (odcid ++ extra))
    → pos ≤ length payload
    → ts < 2 ^ 64
    → now ≤ ts + lifetime
    → ts ≤ now + lifetime
    → parse_stamp payload now lifetime pos ≡ some odcid
unfolding parse_stamp
parse_stamp_lem payload now lifetime pos ts odcid extra h le t p q =
    rw (stamp, from_be_bytes-to_be_bytes 8 ts t)
      (ground
        (arith, long, parse_odcid_lem payload (pos + 8) odcid extra after (omega (arith, long))))
  where
    eight : length (to_be_bytes 8 ts) ≡ 8
    eight = length-to_be_bytes 8 ts

    after : drop (pos + 8) payload ≡ length odcid ∷ (odcid ++ extra)
    after = rw eight at (drop-append payload (to_be_bytes 8 ts) _ pos h)

    stamp : slice payload pos 8 ≡ to_be_bytes 8 ts
    stamp = rw eight at (slice-append payload (to_be_bytes 8 ts) _ pos h)

    long : pos + 8 ≤ length payload
    long = omega (arith, length-ge payload (to_be_bytes 8 ts) _ pos le h, eight)

check_addr_lem :
    (payload : List ℕ) (family n : ℕ) (ip : List ℕ) (port : ℕ) (tail : List ℕ)
    → payload ≡ family ∷ (ip ++ (to_be_bytes 2 port ++ tail))
    → length ip ≡ n
    → (check_addr payload n ip port ≡ some (1 + n + 2))
      × (drop (1 + n + 2) payload ≡ tail)
      × (1 + n + 2 ≤ length payload)
unfolding check_addr
check_addr_lem payload family n ip port tail h l = (
  ground (arith, host, door, long, bytes_eq_refl ip, bytes_eq_refl (to_be_bytes 2 port)),
  rest,
  long,
)
  where
    two : length (to_be_bytes 2 port) ≡ 2
    two = length-to_be_bytes 2 port

    one : drop 1 payload ≡ ip ++ (to_be_bytes 2 port ++ tail)
    one = drop-append payload (family ∷ []) _ 0 h

    host : slice payload 1 n ≡ ip
    host = rw l at (slice-append payload ip _ 1 one)

    at_port : drop (1 + n) payload ≡ to_be_bytes 2 port ++ tail
    at_port = rw l at (drop-append payload ip _ 1 one)

    door : slice payload (1 + n) 2 ≡ to_be_bytes 2 port
    door = rw two at (slice-append payload (to_be_bytes 2 port) _ (1 + n) at_port)

    rest : drop (1 + n + 2) payload ≡ tail
    rest = rw two at (drop-append payload (to_be_bytes 2 port) _ (1 + n) at_port)

    long : 1 + n + 2 ≤ length payload
    long = omega (
      arith,
      l,
      two,
      ap length h,
      length-append ip (to_be_bytes 2 port ++ tail),
      length-append (to_be_bytes 2 port) tail,
    )

abbrev pub family_of : SocketAddr → ℕ
family_of (v4 ip port) = 4
family_of (v6 ip port) = 6

abbrev pub ip_of : SocketAddr → List ℕ
ip_of (v4 ip port) = ip
ip_of (v6 ip port) = ip

abbrev pub port_of : SocketAddr → ℕ
port_of (v4 ip port) = port
port_of (v6 ip port) = port

-- The layout of a payload, bracketed to the right.
pub layout :
    (peer : SocketAddr) (ts : ℕ) (odcid extra : List ℕ)
    → build_token_payload peer ts odcid ++ extra
      ≡ family_of peer
        ∷ (ip_of peer
            ++ (to_be_bytes 2 (port_of peer)
                ++ (to_be_bytes 8 ts ++ (length odcid % 256 ∷ (odcid ++ extra)))))
unfolding build_token_payload
layout (v4 ip port) ts odcid extra = simp append_assoc
layout (v6 ip port) ts odcid extra = simp append_assoc

parse_layout :
    (peer : SocketAddr) (payload : List ℕ) (ts now lifetime : ℕ) (odcid extra : List ℕ)
    → IsAddr peer
    → ts < 2 ^ 64
    → now ≤ ts + lifetime
    → ts ≤ now + lifetime
    → payload
      ≡ family_of peer
        ∷ (ip_of peer
            ++ (to_be_bytes 2 (port_of peer)
                ++ (to_be_bytes 8 ts ++ (length odcid ∷ (odcid ++ extra)))))
    → parse_token_payload payload peer now lifetime ≡ some odcid
unfolding parse_token_payload
parse_layout peer [] ts now lifetime odcid extra a t p q e = ground arith
parse_layout (v4 ip port) (f ∷ rest) ts now lifetime odcid extra a t p q e =
    let (checked, tail, long) = check_addr_lem (f ∷ rest) 4 4 ip port _ e a.0 in
    let stamp = parse_stamp_lem (f ∷ rest) now lifetime 7 ts odcid extra tail long t p q in
    ground (arith, checked, stamp, e)
parse_layout (v6 ip port) (f ∷ rest) ts now lifetime odcid extra a t p q e =
    let (checked, tail, long) = check_addr_lem (f ∷ rest) 6 16 ip port _ e a.0 in
    let stamp = parse_stamp_lem (f ∷ rest) now lifetime 19 ts odcid extra tail long t p q in
    ground (arith, checked, stamp, e)

-- A payload built for a peer is parsed back for that peer to the connection id that it was built
-- from, whatever follows it, if the address and the stamp fit their fields, the id has fewer than
-- 256 bytes, and the clock is within `lifetime` of the stamp in either direction.
pub round_trip :
    (peer : SocketAddr) (ts now lifetime : ℕ) (odcid extra : List ℕ)
    → IsAddr peer
    → ts < 2 ^ 64
    → length odcid < 256
    → now ≤ ts + lifetime
    → ts ≤ now + lifetime
    → parse_token_payload (build_token_payload peer ts odcid ++ extra) peer now lifetime
      ≡ some odcid
round_trip peer ts now lifetime odcid extra a t l p q =
    parse_layout peer _ ts now lifetime odcid extra a t p q
      (layout peer ts odcid extra ∙ rw (mod-eq_of_lt l))
