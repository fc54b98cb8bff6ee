-- ===== src/RetryToken/Tests.antt =====
-- The keyed hash and the ids drawn from it, with a stand-in for the hash of the `boring` crate.
use http.RetryToken.{DeterministicScidSource, Boring}
use http.Common.{IsByte, All, bytes_eq, replicate, List, refl, ℕ, ◌∷◌, [], arith}

abbrev pub tag : List ℕ
tag = replicate 32 7

pub tag_bytes : All IsByte tag
tag_bytes = ground arith

abbrev pub flat : Boring
flat = record {
  hmac = λ key bytes. tag;
  memcmp_eq = bytes_eq;
  hmac_length = λ key bytes. refl;
  hmac_bytes = λ key bytes. tag_bytes;
  memcmp_bytes = λ a b e. refl;
}

abbrev source : DeterministicScidSource
source = record { key = replicate 32 1; counter = 41 }

abbrev server_id : List ℕ
server_id = 1 ∷ 2 ∷ 3 ∷ 4 ∷ 5 ∷ 6 ∷ 7 ∷ 8 ∷ []
