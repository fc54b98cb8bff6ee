-- ===== src/Cid/Embed.antt =====
-- What a load balancer reads from an id of src/cid.rs.
use http.Cid.Byte.{config_byte_lem}
use http.Cid.{
  server_id_len, generate_scid_from_bytes, quic_lb_plaintext, scid_len, CidEncoding,
  extract_plaintext_server_id, embed,
}
use http.Common.{
  ◌+◌, ◌%◌, drop-length_append, ◌/◌, [], take-length_append, take, length-drop, length-append,
  arith, drop, IsByte, ◌++◌, All, ◌∷◌, ok, ◌<◌, some, ◌≤◌, ◌≡◌, length, List, ℕ,
}

-- The byte at index 0, of a list that has one.
abbrev pub first : List ℕ → ℕ
first [] = 0
first (b ∷ rest) = b

-- An id with the server id in the place where a load balancer looks, the rotation in the top bits
-- of the first byte, and the other random bits untouched.
pub record Carries (server_id : List ℕ) (config_rotation : ℕ) (random_bytes scid : List ℕ)
    : Type 0 where
  pub size : length scid ≡ scid_len
  pub found : extract_plaintext_server_id scid ≡ some server_id
  pub rotation : first scid / 32 ≡ config_rotation
  pub low_bits : first scid % 32 ≡ first random_bytes % 32
  pub entropy : drop (1 + server_id_len) scid ≡ drop (1 + server_id_len) random_bytes

embed-Carries :
    (server_id : List ℕ) (r b : ℕ) (rest : List ℕ)
    → length server_id ≡ 8
    → r ≤ 6
    → b < 256
    → length rest ≡ 19
    → Carries server_id r (b ∷ rest) (embed (b ∷ rest) server_id r)
unfolding embed extract_plaintext_server_id
embed-Carries server_id r b rest hs hr hb hl = record {
  size = omega (arith, len);
  found = ground (arith, take_server, len);
  rotation = (config_byte_lem r b hr hb).0;
  low_bits = (config_byte_lem r b hr hb).1;
  entropy = rw hs at (drop-length_append server_id (drop server_id_len rest));
}
  where
    len : length (server_id ++ drop server_id_len rest) ≡ 19
    len = omega (arith, hs, hl, length-append server_id (drop 8 rest), length-drop 8 rest)

    take_server : take 8 (server_id ++ drop server_id_len rest) ≡ server_id
    take_server = rw hs at (take-length_append server_id (drop server_id_len rest))

-- From a valid encoding with an 8-byte server id and from 20 bytes, `generate_scid_from_bytes` makes
-- an id that carries both: 20 bytes, with the rotation bits and the server id in their places, from
-- which the server id is extracted, and otherwise the given bytes.
pub generate-Carries :
    (server_id : List ℕ) (r : ℕ) (random_bytes : List ℕ) (encoding : CidEncoding)
    → length server_id ≡ 8
    → quic_lb_plaintext server_id r ≡ ok encoding
    → All IsByte random_bytes
    → length random_bytes ≡ scid_len
    → (scid : List ℕ) × (generate_scid_from_bytes encoding random_bytes ≡ ok scid)
      × Carries server_id r random_bytes scid
unfolding generate_scid_from_bytes quic_lb_plaintext
generate-Carries server_id r [] encoding hs he hb hl = absurd (omega (arith, hl))
generate-Carries server_id r (b ∷ rest) encoding hs he hb hl = (
  embed (b ∷ rest) server_id r,
  ground arith,
  embed-Carries server_id r b rest hs (ground arith) hb.0 (omega (arith, hl)),
)
