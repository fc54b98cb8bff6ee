-- ===== src/RetryToken/Verify.antt =====
-- What the functions of src/retry_token.rs promise, given the `boring` crate.
use http.Token.Slices.{All-take}
use http.Cid.Embed.{generate-Carries, Carries}
use http.Cid.{CidEncoding, quic_lb_plaintext, scid_len}
use http.Token.{v6, v4, SocketAddr, build_token_payload}
use http.RetryToken.{DeterministicScidSource, next_scid, hmac_sha256_verify, scid_message, Boring}
use http.Common.{
  bytes_eq_refl, ap, ◌∙◌, bytes_eq_sound, length-take, sym, ok, arith, ◌++◌, ◌↔◌, ◌≢◌, take, true,
  length, ◌≡◌, List, ℕ,
}

module _ (boring : Boring) where
  -- A tag verifies exactly if it is the keyed hash of the bytes.
  pub verify_iff :
      (key bytes tag : List ℕ)
      → (hmac_sha256_verify boring key bytes tag ≡ true) ↔ (tag ≡ boring.hmac key bytes)
  unfolding hmac_sha256_verify
  verify_iff key bytes tag = (only, back)
    where
      only : hmac_sha256_verify boring key bytes tag ≡ true → tag ≡ boring.hmac key bytes
      only h =
          let size : length tag ≡ 32 = ground arith in
          let same : boring.memcmp_eq (boring.hmac key bytes) tag ≡ true = ground arith in
          sym (
            bytes_eq_sound _ _
              (sym (boring.memcmp_bytes _ _ (boring.hmac_length key bytes ∙ sym size)) ∙ same))

      back : tag ≡ boring.hmac key bytes → hmac_sha256_verify boring key bytes tag ≡ true
      back e =
          let size : length tag ≡ 32 = ap length e ∙ boring.hmac_length key bytes in
          let same : boring.memcmp_eq (boring.hmac key bytes) tag ≡ true =
            boring.memcmp_bytes _ _ (boring.hmac_length key bytes ∙ sym size)
            ∙ rw e (bytes_eq_refl (boring.hmac key bytes)) in
          ground (arith, size, same)

  digest_size : (key bytes : List ℕ) → length (take scid_len (boring.hmac key bytes)) ≡ scid_len
  digest_size key bytes =
      omega (arith, length-take scid_len (boring.hmac key bytes), boring.hmac_length key bytes)

  -- With a load-balancer encoding every draw succeeds, and makes an id for that server from the
  -- keyed hash of the new counter.
  pub next_scid_lem :
      (source : DeterministicScidSource) (server_id : List ℕ) (r : ℕ) (encoding : CidEncoding)
      → length server_id ≡ 8
      → quic_lb_plaintext server_id r ≡ ok encoding
      → (scid : List ℕ) × ((next_scid boring source encoding).1 ≡ ok scid)
        × Carries server_id r
            (take scid_len
              (boring.hmac source.key (scid_message (next_scid boring source encoding).0.counter)))
            scid
  unfolding next_scid
  next_scid_lem source server_id r encoding hs he =
      generate-Carries server_id r _ encoding hs he
        (All-take _ scid_len (boring.hmac_bytes source.key _)) (digest_size source.key _)

-- The two uses of one key never hash the same bytes: no id message is a token payload, whatever
-- bytes follow the payload.
pub scid_message-ne-payload :
    (counter : ℕ) (peer : SocketAddr) (ts : ℕ) (odcid extra : List ℕ)
    → scid_message counter ≢ build_token_payload peer ts odcid ++ extra
unfolding scid_message build_token_payload
scid_message-ne-payload counter (v4 ip port) ts odcid extra e = ground arith
scid_message-ne-payload counter (v6 ip port) ts odcid extra e = ground arith
