-- ===== src/Token/Words.antt =====
-- Big-endian integers of src/proof_core/retry_token_model.rs.
use native.Mathlib.Nat.{pow-suc}
use http.Token.{from_be_bytes, from_be, to_be_bytes}
use http.Common.{
  sym, ◌∙◌, subst, ap, zero, refl, ◌%◌, [], ◌+◌, ◌/◌, ◌*◌, length-append, IsByte, arith, ◌∷◌, suc,
  All, ◌^◌, ◌++◌, ◌≡◌, ◌<◌, List, length, ℕ,
}

pub length-to_be_bytes : (n v : ℕ) → length (to_be_bytes n v) ≡ n
unfolding to_be_bytes
length-to_be_bytes zero v = refl
length-to_be_bytes (suc n) v =
    omega (
      arith,
      length-append (to_be_bytes n (v / 256)) (v % 256 ∷ []),
      length-to_be_bytes n (v / 256),
    )

from_be-append : (acc : ℕ) (xs ys : List ℕ) → from_be acc (xs ++ ys) ≡ from_be (from_be acc xs) ys
unfolding from_be
from_be-append acc [] ys = refl
from_be-append acc (x ∷ xs) ys = from_be-append (acc * 256 + x) xs ys

-- An integer that fits its bytes is read back.
pub from_be_bytes-to_be_bytes : (n v : ℕ) → v < 256 ^ n → from_be_bytes (to_be_bytes n v) ≡ v
unfolding from_be_bytes to_be_bytes
from_be_bytes-to_be_bytes zero v h = omega (arith)
from_be_bytes-to_be_bytes (suc n) v h =
    let ih = from_be_bytes-to_be_bytes n (v / 256) (omega (arith, pow-suc 256 n)) in
    rw (from_be-append 0 (to_be_bytes n (v / 256)) (v % 256 ∷ []), ih) (omega arith)

-- Every non-empty list has a last element.
unsnoc : (n : ℕ) (xs : List ℕ) → length xs ≡ suc n → (ys : List ℕ) × (b : ℕ) × (xs ≡ ys ++ (b ∷ []))
unsnoc n [] h = absurd (omega (arith, h))
unsnoc zero (x ∷ []) h = ([], x, refl)
unsnoc zero (x ∷ (y ∷ xs)) h = absurd (omega (arith, h))
unsnoc (suc n) (x ∷ xs) h =
    let (ys, b, e) = unsnoc n xs (omega (arith, h)) in (x ∷ ys, b, ap (λ r. x ∷ r) e)

All-unsnoc : (ys : List ℕ) (b : ℕ) → All IsByte (ys ++ (b ∷ [])) → All IsByte ys × (b < 256)
All-unsnoc [] b h = (tt, h.0)
All-unsnoc (y ∷ ys) b h = let (k, l) = All-unsnoc ys b h.1 in ((h.0, k), l)

be_lt : (n v b p : ℕ) → v < p → b < 256 → v * 256 + b < p * 256
be_lt n v b p h k = omega arith

-- Bytes read as an integer fit it, and are written back as they were.
pub to_be_bytes-from_be_bytes :
    (n : ℕ) (xs : List ℕ)
    → length xs ≡ n
    → All IsByte xs
    → (from_be_bytes xs < 256 ^ n) × (to_be_bytes n (from_be_bytes xs) ≡ xs)
unfolding from_be_bytes to_be_bytes from_be
to_be_bytes-from_be_bytes zero [] l h = (omega arith, refl)
to_be_bytes-from_be_bytes zero (x ∷ xs) l h = absurd (omega (arith, l))
to_be_bytes-from_be_bytes (suc n) xs l h =
    let (ys, b, e) = unsnoc n xs l in
    let (hs, hb) = All-unsnoc ys b (subst (All IsByte) e h) in
    let ly : length ys ≡ n = omega (arith, l, ap length e, length-append ys (b ∷ [])) in
    let (lt, eq) = to_be_bytes-from_be_bytes n ys ly hs in
    let v : from_be 0 xs ≡ from_be 0 ys * 256 + b =
      ap (from_be 0) e ∙ from_be-append 0 ys (b ∷ []) in
    let q : (from_be 0 ys * 256 + b) / 256 ≡ from_be 0 ys = omega (arith, hb) in
    let r : (from_be 0 ys * 256 + b) % 256 ≡ b = omega (arith, hb) in
    (rw (v, pow-suc 256 n) (omega (arith, lt, hb)), rw (v, q, r, eq) (sym e))
