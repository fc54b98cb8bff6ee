-- ===== src/Pool/Bins.antt =====
-- Bins of buffers by size class: no bin holds a buffer below its class, or more than it may.
use http.Pool.{push_at, class_at, pop_from, under, bin_len, Buffer}
use http.Common.{
  zero, suc, arith, [], ◌<◌, drop, length, ◌≤◌, ◌≡◌, All, Option, get_elem?, List, none, some, ℕ,
  ◌∷◌,
}

module _ (max_of : ℕ → ℕ) where
  -- `max_of c` is the limit of the bin of class `c`.
  abbrev pub BinsValid : List ℕ → List (List Buffer) → Type 0
  BinsValid [] [] = Unit {0}
  BinsValid [] (b ∷ bins) = ⊥
  BinsValid (c ∷ cs) [] = ⊥
  BinsValid (c ∷ cs) (b ∷ bins) =
      All (λ buf. c ≤ buf.capacity) b × (length b ≤ max_of c) × BinsValid cs bins

  pub push_at-BinsValid :
      (cs : List ℕ) (bins : List (List Buffer)) (i : ℕ) (buf : Buffer) (c : ℕ)
      → BinsValid cs bins
      → get_elem? cs i ≡ some c
      → c ≤ buf.capacity
      → bin_len bins i < max_of (class_at cs i)
      → BinsValid cs (push_at i buf bins)
  push_at-BinsValid [] [] i buf c v e le room = tt
  push_at-BinsValid [] (b ∷ bins) i buf c v e le room = absurd v
  push_at-BinsValid (d ∷ cs) [] i buf c v e le room = v
  push_at-BinsValid (d ∷ cs) (b ∷ bins) zero buf c v e le room =
      ((ground arith, v.0), omega (arith, room), v.2)
  push_at-BinsValid (d ∷ cs) (b ∷ bins) (suc i) buf c v e le room =
      (v.0, v.1, push_at-BinsValid cs bins i buf c v.2 e le room)

  -- A buffer popped from bin `i` on has the capacity that all these classes have.
  abbrev pub Popped : List ℕ → ℕ → Option (Buffer × List (List Buffer)) → Type 0
  Popped cs len none = Unit {0}
  Popped cs len (some (buf, bins')) = (len ≤ buf.capacity) × BinsValid cs bins'

  under-Popped :
      (c : ℕ) (cs : List ℕ) (b : List Buffer) (bins : List (List Buffer)) (len : ℕ)
      (o : Option (Buffer × List (List Buffer)))
      → All (λ buf. c ≤ buf.capacity) b
      → length b ≤ max_of c
      → Popped cs len o
      → Popped (c ∷ cs) len (under b o)
  under-Popped c cs b bins len none h k p = tt
  under-Popped c cs b bins len (some (buf, bins')) h k p = (p.0, (h, k, p.1))

  pub pop_from-Popped :
      (cs : List ℕ) (bins : List (List Buffer)) (i len : ℕ)
      → BinsValid cs bins
      → All (λ c. len ≤ c) (drop i cs)
      → Popped cs len (pop_from i bins)
  pop_from-Popped [] [] i len v a = tt
  pop_from-Popped [] (b ∷ bins) i len v a = absurd v
  pop_from-Popped (c ∷ cs) [] i len v a = tt
  pop_from-Popped (c ∷ cs) (b ∷ bins) (suc i) len v a =
      under-Popped c cs b bins len (pop_from i bins) v.0 v.1 (pop_from-Popped cs bins i len v.2 a)
  pop_from-Popped (c ∷ cs) ([] ∷ bins) zero len v a =
      under-Popped c cs [] bins len (pop_from zero bins) v.0 v.1
        (pop_from-Popped cs bins zero len v.2 a.1)
  pop_from-Popped (c ∷ cs) ((buf ∷ b) ∷ bins) zero len v a =
      (omega (arith, a.0, v.0.0), (v.0.1, omega (arith, v.1), v.2))
