-- ===== src/Token/Slices.antt =====
-- How the cuts of src/proof_core/retry_token_model.rs take a payload apart.
use http.Token.{slice}
use http.Common.{
  drop-add, length-append, take-append-drop, ◌<◌, zero, length-drop, [], drop-length_append,
  take-length_append, length-take, sym, ◌∙◌, take, suc, ◌∷◌, some, arith, ◌++◌, ap, IsByte, length,
  ◌≡◌, All, ◌≤◌, get_elem?, ◌+◌, drop, List, ℕ,
}

-- Reading forward: a slice, then the rest.
pub drop-eq-slice : (xs : List ℕ) (i n : ℕ) → drop i xs ≡ slice xs i n ++ drop (i + n) xs
unfolding slice
drop-eq-slice xs i n = rw (drop-add xs i n) (sym (take-append-drop n (drop i xs)))

pub length-slice : (xs : List ℕ) (i n : ℕ) → i + n ≤ length xs → length (slice xs i n) ≡ n
unfolding slice
length-slice xs i n h = omega (arith, length-take n (drop i xs), length-drop i xs)

pub drop-get_elem? :
    (xs : List ℕ) (i b : ℕ) → get_elem? xs i ≡ some b → drop i xs ≡ b ∷ drop (i + 1) xs
drop-get_elem? [] i b h = cc
drop-get_elem? (x ∷ xs) zero b h = ground arith
drop-get_elem? (x ∷ xs) (suc i) b h =
    drop-get_elem? xs i b h
    ∙ ap (λ k. b ∷ drop k (x ∷ xs)) {x = suc (i + 1)} {y = suc i + 1} (omega arith)

-- Writing: what stands at a position, once the rest from there is known.
pub slice-append : (xs a b : List ℕ) (i : ℕ) → drop i xs ≡ a ++ b → slice xs i (length a) ≡ a
unfolding slice
slice-append xs a b i h = rw h (take-length_append a b)

pub drop-append : (xs a b : List ℕ) (i : ℕ) → drop i xs ≡ a ++ b → drop (i + length a) xs ≡ b
drop-append xs a b i h = rw (drop-add xs i (length a), h) (drop-length_append a b)

pub get_elem?-drop : (xs r : List ℕ) (i b : ℕ) → drop i xs ≡ b ∷ r → get_elem? xs i ≡ some b
get_elem?-drop [] r zero b h = cc
get_elem?-drop [] r (suc i) b h = cc
get_elem?-drop (x ∷ xs) r zero b h = ground arith
get_elem?-drop (x ∷ xs) r (suc i) b h = get_elem?-drop xs r i b h

pub length-ge :
    (xs a b : List ℕ) (i : ℕ)
    → i ≤ length xs
    → drop i xs ≡ a ++ b
    → i + length a + length b ≡ length xs
length-ge xs a b i le h = omega (arith, length-drop i xs, ap length h, length-append a b)

pub All-drop : (xs : List ℕ) (i : ℕ) → All IsByte xs → All IsByte (drop i xs)
All-drop xs zero h = h
All-drop [] (suc i) h = tt
All-drop (x ∷ xs) (suc i) h = All-drop xs i h.1

pub All-take : (xs : List ℕ) (n : ℕ) → All IsByte xs → All IsByte (take n xs)
All-take xs zero h = tt
All-take [] (suc n) h = tt
All-take (x ∷ xs) (suc n) h = (h.0, All-take xs n h.1)

pub All-slice : (xs : List ℕ) (i n : ℕ) → All IsByte xs → All IsByte (slice xs i n)
unfolding slice
All-slice xs i n h = All-take (drop i xs) n (All-drop xs i h)

pub get_elem?-IsByte : (xs : List ℕ) (i b : ℕ) → All IsByte xs → get_elem? xs i ≡ some b → b < 256
get_elem?-IsByte [] i b h e = cc
get_elem?-IsByte (x ∷ xs) zero b h e = ground arith
get_elem?-IsByte (x ∷ xs) (suc i) b h e = get_elem?-IsByte xs i b h.1 e
