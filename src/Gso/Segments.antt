-- ===== src/Gso/Segments.antt =====
-- What the kernel makes of a batch of src/transport/mod.rs: UDP_SEGMENT.
use http.Common.{
  length-drop, take-all, length-append, ap₂, sym, ◌∙◌, ◌==◌, subst, ap, if◌then◌else◌, ◌++◌, length,
  drop, ◌<◌, ◌≤◌, take, ◌≡◌, List, refl, ℕ, ◌∷◌, [], zero, suc, arith,
}
use http.Gso.{GsoBatch}

-- Pieces of `size` bytes, the last one perhaps shorter; `fuel` is a bound on their number.
abbrev pub segments : ℕ → ℕ → List ℕ → List (List ℕ)
segments zero size xs = []
segments (suc fuel) size [] = []
segments (suc fuel) size (x ∷ xs) = take size (x ∷ xs) ∷ segments fuel size (drop size (x ∷ xs))

-- A multiple of the size.
abbrev pub Multiple : ℕ → ℕ → List ℕ → Type 0
Multiple zero size xs = xs ≡ []
Multiple (suc k) size xs = (size ≤ length xs) × Multiple k size (drop size xs)

pub nonempty :
    (fuel size : ℕ) (xs : List ℕ)
    → 0 < length xs
    → segments (suc fuel) size xs ≡ take size xs ∷ segments fuel size (drop size xs)
nonempty fuel size [] h = absurd (omega (arith, h))
nonempty fuel size (x ∷ xs) h = refl

pub segments-[] : (fuel size : ℕ) → segments fuel size [] ≡ []
segments-[] zero size = refl
segments-[] (suc fuel) size = refl

pub take-append : (n : ℕ) (xs ys : List ℕ) → n ≤ length xs → take n (xs ++ ys) ≡ take n xs
take-append zero xs ys h = refl
take-append (suc n) [] ys h = absurd (omega (arith, h))
take-append (suc n) (x ∷ xs) ys h = ap (λ r. x ∷ r) (take-append n xs ys (omega (arith, h)))

pub drop-append : (n : ℕ) (xs ys : List ℕ) → n ≤ length xs → drop n (xs ++ ys) ≡ drop n xs ++ ys
drop-append zero xs ys h = refl
drop-append (suc n) [] ys h = absurd (omega (arith, h))
drop-append (suc n) (x ∷ xs) ys h = drop-append n xs ys (omega (arith, h))

pub drop-length : (xs : List ℕ) → drop (length xs) xs ≡ []
drop-length [] = refl
drop-length (x ∷ xs) = drop-length xs

-- A whole segment behind a multiple is one segment more.
pub segments-append :
    (k size : ℕ) (xs p : List ℕ) (fuel fuel' : ℕ)
    → 0 < size
    → length p ≡ size
    → Multiple k size xs
    → length xs < fuel
    → length xs ≤ fuel'
    → segments fuel size (xs ++ p) ≡ segments fuel' size xs ++ (p ∷ [])
segments-append k size xs p zero fuel' s e m h h' = absurd (omega (arith, h))
segments-append zero size xs p (suc fuel) fuel' s e m h h' =
    ap (λ t. segments (suc fuel) size (t ++ p)) m
    ∙ nonempty fuel size p (omega (arith, s, e))
    ∙ ap₂ (λ a b. a ∷ b) (take-all size p (omega (arith, e)))
        (ap (segments fuel size) (ap (λ n. drop n p) (sym e) ∙ drop-length p)
          ∙ segments-[] fuel size)
    ∙ ap (λ t. t ++ (p ∷ [])) (sym (segments-[] fuel' size))
    ∙ ap (λ t. segments fuel' size t ++ (p ∷ [])) (sym m)
segments-append (suc k) size xs p (suc fuel) zero s e m h h' = absurd (omega (arith, h', m.0, s))
segments-append (suc k) size xs p (suc fuel) (suc fuel') s e m h h' =
    nonempty fuel size (xs ++ p) (omega (arith, length-append xs p, m.0, s))
    ∙ ap₂ (λ a b. a ∷ b) (take-append size xs p m.0)
        (ap (segments fuel size) (drop-append size xs p m.0)
          ∙ segments-append k size (drop size xs) p fuel fuel' s e m.1
              (omega (arith, length-drop size xs, h, m.0, s))
              (omega (arith, length-drop size xs, h', m.0, s)))
    ∙ ap (λ t. t ++ (p ∷ [])) (sym (nonempty fuel' size xs (omega (arith, m.0, s))))

pub Multiple-append :
    (k size : ℕ) (xs p : List ℕ)
    → length p ≡ size
    → Multiple k size xs
    → Multiple (suc k) size (xs ++ p)
Multiple-append zero size xs p e m =
    subst (λ t. Multiple 1 size (t ++ p)) (sym m)
      (omega (arith, e), ap (λ n. drop n p) (sym e) ∙ drop-length p)
Multiple-append (suc k) size xs p e m = (
  omega (arith, length-append xs p, m.0),
  subst (Multiple (suc k) size) (sym (drop-append size xs p m.0))
      (Multiple-append k size (drop size xs) p e m.1),
)

abbrev pub with_dest : ℕ → List (List ℕ) → List (ℕ × List ℕ)
with_dest dest [] = []
with_dest dest (p ∷ ps) = (dest, p) ∷ with_dest dest ps

-- The packets that the kernel sends for a batch.
abbrev pub datagrams : GsoBatch → List (ℕ × List ℕ)
datagrams b =
    let whole = take b.total_len b.buffer in
    if b.segment_size == 0
    then (b.dest, whole) ∷ []
    else with_dest b.dest (segments b.total_len b.segment_size whole)
