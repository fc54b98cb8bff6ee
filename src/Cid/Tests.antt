-- ===== src/Cid/Tests.antt =====
-- A connection id with a server id.
use http.Cid.Embed.{generate-Carries, Carries}
use http.Cid.{quic_lb, generate_scid_from_bytes, valid_config_rotation, quic_lb_plaintext}
use http.Common.{◌≡◌, replicate, List, refl, ℕ, ◌∷◌, [], ok, arith}

abbrev server_id : List ℕ
server_id = 1 ∷ 2 ∷ 3 ∷ 4 ∷ 5 ∷ 6 ∷ 7 ∷ 8 ∷ []

abbrev random_bytes : List ℕ
random_bytes = replicate 20 0xab

generate-Carries_example :
    (scid : List ℕ) × (generate_scid_from_bytes (quic_lb server_id 3) random_bytes ≡ ok scid)
    × Carries server_id 3 random_bytes scid
unfolding quic_lb_plaintext valid_config_rotation
generate-Carries_example =
    generate-Carries server_id 3 random_bytes (quic_lb server_id 3) refl refl (ground arith) refl
