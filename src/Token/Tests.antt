-- ===== src/Token/Tests.antt =====
-- Retry tokens at a concrete peer.
use http.Token.RoundTrip.{round_trip}
use http.Token.Sound.{parse_sound, MintedFor}
use http.Token.{
  parse_odcid, abs_diff, from_be, from_be_bytes, parse_stamp, to_be_bytes, slice, check_addr,
  check_family, build_token_payload, v4, parse_token_payload, SocketAddr,
}
use http.Common.{◌≡◌, ◌++◌, List, some, refl, ℕ, ◌∷◌, [], arith}

abbrev peer : SocketAddr
peer = v4 (10 ∷ 0 ∷ 0 ∷ 1 ∷ []) 4433

abbrev odcid : List ℕ
odcid = 1 ∷ 2 ∷ 3 ∷ []

abbrev payload : List ℕ
payload = 4 ∷ 10 ∷ 0 ∷ 0 ∷ 1 ∷ 17 ∷ 81 ∷ 0 ∷ 0 ∷ 0 ∷ 0 ∷ 0 ∷ 0 ∷ 3 ∷ 232 ∷ 3 ∷ 1 ∷ 2 ∷ 3 ∷ []

round_trip_example :
    parse_token_payload (build_token_payload peer 1000 odcid ++ []) peer 1030 60 ≡ some odcid
round_trip_example =
    round_trip peer 1000 1030 60 odcid [] (refl, omega arith) (omega arith) (omega arith)
      (omega arith) (omega arith)

parsed : parse_token_payload payload peer 1030 60 ≡ some odcid
unfolding parse_token_payload check_family check_addr slice to_be_bytes parse_stamp from_be_bytes
    from_be abs_diff parse_odcid
parsed = refl

parse_sound_example : MintedFor payload peer 1030 60 odcid
parse_sound_example = parse_sound payload peer 1030 60 odcid (ground arith) parsed
