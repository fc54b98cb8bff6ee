-- ===== src/ConnectionMap/Tokens.antt =====
-- Retry tokens of src/connection_map.rs, end to end.
use http.Token.RoundTrip.{round_trip}
use http.RetryToken.{hmac_sha256_verify, hmac_sha256}
use http.Token.Slices.{All-drop}
use http.RetryToken.Verify.{verify_iff}
use http.Token.Sound.{parse_sound, MintedFor}
use http.Token.{build_token_payload, parse_token_payload, SocketAddr, IsAddr}
use http.ConnectionMap.{Map, mint_token, validate_token, Env}
use http.Common.{
  refl, [], append-nil, length-append, drop-length_append, take-length_append, ap, ◌∙◌,
  take-append-drop, sym, arith, true, take, drop, ◌+◌, ◌++◌, ◌≤◌, some, length, ◌≡◌, ◌^◌, IsByte,
  ◌<◌, All, List, ℕ,
}

module _ {C : Type 0} (env : Env C) where
  -- A token is valid for its peer for 60 seconds, in either direction of the clock, and gives back
  -- the connection id that it was minted for.
  pub validate-mint :
      (m : Map env) (peer : SocketAddr) (odcid : List ℕ) (minted now : ℕ)
      → IsAddr peer
      → minted < 2 ^ 64
      → length odcid < 256
      → now ≤ minted + 60
      → minted ≤ now + 60
      → validate_token env m (mint_token env m peer odcid minted) peer now ≡ some odcid
  unfolding validate_token mint_token hmac_sha256
  validate-mint m peer odcid minted now a t l p q =
      rw (front, back, verified) (ground (arith, size, parsed))
    where
      payload : List ℕ
      payload = build_token_payload peer minted odcid

      tag : List ℕ
      tag = env.boring.hmac m.token_key payload

      bits : length tag ≡ 32
      bits = env.boring.hmac_length m.token_key payload

      front : take 32 (tag ++ payload) ≡ tag
      front = rw bits at (take-length_append tag payload)

      back : drop 32 (tag ++ payload) ≡ payload
      back = rw bits at (drop-length_append tag payload)

      verified : hmac_sha256_verify env.boring m.token_key payload tag ≡ true
      verified = (verify_iff env.boring m.token_key payload tag).1 refl

      size : 32 ≤ length (tag ++ payload)
      size = omega (arith, bits, length-append tag payload)

      parsed : parse_token_payload payload peer now 60 ≡ some odcid
      parsed = rw append-nil at (round_trip peer minted now 60 odcid [] a t l p q)

  -- A token that is accepted is the keyed hash of a payload, followed by that payload, and the
  -- payload begins with one minted for this peer within 60 seconds of `now`, with the connection id
  -- that is returned. Of the bytes that follow it in the hashed payload nothing is said.
  pub validate_sound :
      (m : Map env) (token : List ℕ) (peer : SocketAddr) (now : ℕ) (odcid : List ℕ)
      → All IsByte token
      → validate_token env m token peer now ≡ some odcid
      → (payload : List ℕ) × (token ≡ env.boring.hmac m.token_key payload ++ payload)
        × MintedFor payload peer now 60 odcid
  unfolding validate_token
  validate_sound m token peer now odcid h e = (
    drop 32 token,
    token_eq,
    parse_sound (drop 32 token) peer now 60 odcid (All-drop token 32 h) parsed,
  )
    where
      verified : hmac_sha256_verify env.boring m.token_key (drop 32 token) (take 32 token) ≡ true
      verified = ground arith

      parsed : parse_token_payload (drop 32 token) peer now 60 ≡ some odcid
      parsed = ground arith

      token_eq : token ≡ env.boring.hmac m.token_key (drop 32 token) ++ drop 32 token
      token_eq =
          sym (take-append-drop 32 token)
          ∙ ap (λ tag. tag ++ drop 32 token)
              ((verify_iff env.boring m.token_key (drop 32 token) (take 32 token)).0 verified)
