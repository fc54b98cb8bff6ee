-- ===== src/Cid/Byte.antt =====
-- The first byte of an id of src/proof_core/cid_model.rs.
use http.Cid.{config_byte}
use http.Common.{ltb, zero, ◌&&◌, ◌%◌, refl, ◌==◌, arith, suc, ◌<◌, ◌/◌, true, ◌≤◌, ◌≡◌, Bool, ℕ}

-- A test that every number under a bound passes.
passes : (ℕ → Bool) → ℕ → Bool
passes test zero = true
passes test (suc bound) = passes test bound && test bound

passes_at : (test : ℕ → Bool) (bound k : ℕ) → k < bound → passes test bound ≡ true → test k ≡ true
unfolding passes
passes_at test zero k below all = absurd (omega (arith, below))
passes_at test (suc bound) k below all = ground (arith, passes_at test bound k)

byte_fits : ℕ → ℕ → Bool
unfolding config_byte
byte_fits r b =
    (config_byte r b / 32 == r) && (config_byte r b % 32 == b % 32) && ltb (config_byte r b) 256

table : passes (λ r. passes (byte_fits r) 256) 7 ≡ true
unfolding passes byte_fits
table = refl

-- The top three bits hold the rotation, and the low five stay random.
pub config_byte_lem :
    (r b : ℕ)
    → r ≤ 6
    → b < 256
    → (config_byte r b / 32 ≡ r) × (config_byte r b % 32 ≡ b % 32) × (config_byte r b < 256)
unfolding byte_fits
config_byte_lem r b hr hb =
    let row = passes_at (λ r. passes (byte_fits r) 256) 7 r (omega (arith, hr)) table in
    let checked = passes_at (byte_fits r) 256 b hb row in ground (arith, checked)
