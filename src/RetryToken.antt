-- ===== src/RetryToken.antt =====
-- src/retry_token.rs: the keyed hash under retry tokens and under the connection ids of the
-- direct-call server. The `boring` crate is a parameter with what it documents.
pub mod Verify
pub mod Tests
use http.Error.{Http3NativeError}
use http.Token.{to_be_bytes}
use http.Cid.{scid_len, generate_scid_from_bytes, CidEncoding}
use http.Common.{
  take, bytes_eq, ◌^◌, false, IsByte, ◌%◌, ◌==◌, All, ◌+◌, not, ◌≡◌, if◌then◌else◌, length, Result,
  ◌∷◌, Bool, List, ℕ,
}

-- `boring::hash::hmac_sha256` and `boring::memcmp::eq`: a tag has 32 bytes, each a u8, and two
-- slices of one length compare equal if they hold the same bytes.
pub record Boring : Type 0 where
  pub hmac : List ℕ → List ℕ → List ℕ
  pub memcmp_eq : List ℕ → List ℕ → Bool
  pub hmac_length : (key bytes : List ℕ) → length (hmac key bytes) ≡ 32
  pub hmac_bytes : (key bytes : List ℕ) → All IsByte (hmac key bytes)
  pub memcmp_bytes : (a b : List ℕ) → length a ≡ length b → memcmp_eq a b ≡ bytes_eq a b

pub record DeterministicScidSource : Type 0 where
  pub key : List ℕ
  pub counter : ℕ

-- `DeterministicScidSource::new`
abbrev pub new : List ℕ → DeterministicScidSource
new key = record { key = key; counter = 0 }

-- `b"scid:"` and the counter.
unfoldable pub scid_message : ℕ → List ℕ
scid_message counter = b's' ∷ b'c' ∷ b'i' ∷ b'd' ∷ b':' ∷ to_be_bytes 8 counter

module _ (boring : Boring) where
  unfoldable pub hmac_sha256 : List ℕ → List ℕ → List ℕ
  hmac_sha256 key bytes = boring.hmac key bytes

  unfoldable pub hmac_sha256_verify : List ℕ → List ℕ → List ℕ → Bool
  unfolding hmac_sha256
  hmac_sha256_verify key bytes tag =
      if not (length tag == 32) then false else boring.memcmp_eq (hmac_sha256 key bytes) tag

  unfoldable pub next_scid :
      DeterministicScidSource
      → CidEncoding
      → DeterministicScidSource × Result (List ℕ) Http3NativeError
  unfolding hmac_sha256
  next_scid source encoding =
      let counter = (source.counter + 1) % 2 ^ 64 in
      let digest = hmac_sha256 source.key (scid_message counter) in
      (
        record source { counter = counter },
        generate_scid_from_bytes encoding (take scid_len digest),
      )
