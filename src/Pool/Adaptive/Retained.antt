-- ===== src/Pool/Adaptive/Retained.antt =====
-- The well-formedness of `AdaptiveBufferPool` of src/buffer_pool.rs, and what its checkouts give.
use http.Pool.Classes.{rposition_lem}
use http.Pool.ChunkPool.Checkout.{grown_same, resized}
use http.Pool.RightSized.{take_buffer_lem, recycle-IsValid, take_buffer, Taken, RightSizedPool}
use http.Pool.{clear, rposition, Buffer}
use http.Pool.Adaptive.{
  take_own, fall_back, swap_remove, last_of, set_at, copy_from_slice, checkout_empty_vec, Checkout,
  AdaptiveBufferPool,
}
use http.Pool.RightSized
use http.Pool.Adaptive.{checkin, checkout, drain_returned}
use http.Common.{
  All-append, leb→le, length-append, ◌||◌, ltb, Bool-cases, ◌++◌, length-take, replicate, max, ◌-◌,
  ap, ◌<◌, ◌≡◌, take, leb, Option, All, length, ◌≤◌, List, inl, inr, none, some, false, refl, ℕ,
  ◌∷◌, [], zero, suc, arith,
}

-- What the pool keeps: at most `max_buffers`, each within the capacities to retain.
abbrev pub IsValid : AdaptiveBufferPool → Type 0
IsValid pool =
    (length pool.buffers ≤ pool.max_buffers)
    × All (λ buf. (pool.min_capacity ≤ buf.capacity) × (buf.capacity ≤ pool.max_retain_capacity))
        pool.buffers

-- Checking a buffer in keeps both pools well formed, whatever the buffer.
pub checkin-IsValid :
    (pool : AdaptiveBufferPool) (shared : RightSizedPool) (buf : Buffer)
    → IsValid pool
    → http.Pool.RightSized.IsValid shared
    → let (pool', shared', kept) = checkin pool shared buf in
      IsValid pool' × http.Pool.RightSized.IsValid shared'
unfolding checkin
checkin-IsValid pool shared buf v w =
    let recycled = recycle-IsValid shared buf w in
    elim (Bool-cases
      (ltb buf.capacity pool.min_capacity || ltb pool.max_retain_capacity buf.capacity)) [
        | inl out ↦ rw out (v, recycled)
        | inr fits ↦ elim (Bool-cases (leb pool.max_buffers (length pool.buffers))) [
          | inl full ↦ rw (fits, full) (v, recycled)
          | inr room ↦
              rw (fits, room)
                (
                  (
                    omega (arith, length-append pool.buffers (clear buf ∷ []), ltb_of room),
                    All-append
                        (λ buf.
                          (pool.min_capacity ≤ buf.capacity)
                          × (buf.capacity ≤ pool.max_retain_capacity))
                        pool.buffers (clear buf ∷ []) v.1 (ground (arith, fits)),
                  ),
                  w,
                )
        ]
      ]
  where
    ltb_of :
        leb pool.max_buffers (length pool.buffers) ≡ false → length pool.buffers < pool.max_buffers
    ltb_of e = ground (arith, e)

-- Draining the channel of returned buffers keeps both pools well formed, whatever it holds.
pub drain_returned-IsValid :
    (pool : AdaptiveBufferPool) (shared : RightSizedPool) (rx : List Buffer)
    → IsValid pool
    → http.Pool.RightSized.IsValid shared
    → let (pool', shared') = drain_returned pool shared rx in
      IsValid pool' × http.Pool.RightSized.IsValid shared'
unfolding drain_returned
drain_returned-IsValid pool shared [] v w = (v, w)
drain_returned-IsValid pool shared (buf ∷ rx) v w =
    let (v', w') = checkin-IsValid pool shared buf v w in
    drain_returned-IsValid (checkin pool shared buf).0 (checkin pool shared buf).1 rx v' w'

module _ (P : Buffer → Type 0) where
  All-set_at :
      (i : ℕ) (buf : Buffer) (bufs : List Buffer) → P buf → All P bufs → All P (set_at i buf bufs)
  All-set_at i buf [] p h = tt
  All-set_at zero buf (b ∷ rest) p h = (p, h.1)
  All-set_at (suc i) buf (b ∷ rest) p h = (h.0, All-set_at i buf rest p h.1)

  All-last_of : (b : Buffer) (rest : List Buffer) → P b → All P rest → P (last_of b rest)
  All-last_of b [] p h = p
  All-last_of b (c ∷ rest) p h = All-last_of c rest h.0 h.1

  All-take : (n : ℕ) (bufs : List Buffer) → All P bufs → All P (take n bufs)
  All-take zero bufs h = tt
  All-take (suc n) [] h = tt
  All-take (suc n) (b ∷ rest) h = (h.0, All-take n rest h.1)

  All-swap_remove : (i : ℕ) (bufs : List Buffer) → All P bufs → All P (swap_remove i bufs)
  All-swap_remove i [] h = tt
  All-swap_remove i (b ∷ rest) h =
      All-take (length rest) (set_at i (last_of b rest) (b ∷ rest))
        (All-set_at i (last_of b rest) (b ∷ rest) (All-last_of b rest h.0 h.1) h)

length-set_at :
    (i : ℕ) (buf : Buffer) (bufs : List Buffer) → length (set_at i buf bufs) ≡ length bufs
length-set_at i buf [] = refl
length-set_at zero buf (b ∷ rest) = refl
length-set_at (suc i) buf (b ∷ rest) = ap suc (length-set_at i buf rest)

length-swap_remove : (i : ℕ) (bufs : List Buffer) → length (swap_remove i bufs) ≡ length bufs - 1
length-swap_remove i [] = omega arith
length-swap_remove i (b ∷ rest) = omega (
  arith,
  length-take (length rest) (set_at i (last_of b rest) (b ∷ rest)),
  length-set_at i (last_of b rest) (b ∷ rest),
)

module _ (alloc : ℕ → ℕ) (alloc_le : (n : ℕ) → n ≤ alloc n) where
  abbrev Fits : AdaptiveBufferPool → ℕ → Checkout → Type 0
  Fits pool len (pool', shared, buf, reused) =
      (IsValid pool' × http.Pool.RightSized.IsValid shared)
      × (buf.bytes ≡ [])
      × (len ≤ buf.capacity)
      × (reused ≡ false → pool' ≡ pool)

  fall_back-Fits :
      (pool : AdaptiveBufferPool) (len : ℕ) (r : Option Buffer × RightSizedPool)
      → IsValid pool
      → Taken len r
      → Fits pool len (fall_back alloc pool len r)
  fall_back-Fits pool len (none, shared) v h =
      ((v, h), refl, omega (arith, alloc_le (max len pool.min_capacity)), λ e. refl)
  fall_back-Fits pool len (some buf, shared) v h = ((v, h.0), h.1, h.2, λ e. refl)

  checkout_empty_vec-Fits :
      (pool : AdaptiveBufferPool) (shared : RightSizedPool) (len : ℕ)
      → IsValid pool
      → http.Pool.RightSized.IsValid shared
      → Fits pool len (checkout_empty_vec alloc pool shared len)
  unfolding checkout_empty_vec
  checkout_empty_vec-Fits pool shared len v w =
      into (rposition (λ buf. leb len buf.capacity) pool.buffers) refl
    where
      fallen : Fits pool len (fall_back alloc pool len (take_buffer shared len))
      fallen = fall_back-Fits pool len (take_buffer shared len) v (take_buffer_lem shared len w).0

      into :
          (o : Option ℕ)
          → rposition (λ buf. leb len buf.capacity) pool.buffers ≡ o
          → Fits pool len (take_own alloc pool shared len o)
      into none e = fallen
      into (some i) e =
          let (buf, at, le) = rposition_lem (λ b. leb len b.capacity) pool.buffers i e in
          rw (at, take_own)
            (
              (
                (
                  omega (arith, v.0, length-swap_remove i pool.buffers),
                  All-swap_remove
                      (λ b.
                        (pool.min_capacity ≤ b.capacity) × (b.capacity ≤ pool.max_retain_capacity))
                      i pool.buffers v.1,
                ),
                w,
              ),
              refl,
              leb→le len buf.capacity le,
              λ q. absurd (cc),
            )

  -- A checkout from well-formed pools: both stay well formed, and the buffer is `len` zeros, so
  -- that nothing of its former contents is seen, in a capacity of at least `len`.
  pub checkout_lem :
      (pool : AdaptiveBufferPool) (shared : RightSizedPool) (len : ℕ)
      → IsValid pool
      → http.Pool.RightSized.IsValid shared
      → let (pool', shared', buf, reused) = checkout alloc pool shared len in
        (IsValid pool' × http.Pool.RightSized.IsValid shared')
        × (buf.bytes ≡ replicate len 0)
        × (len ≤ buf.capacity)
  unfolding checkout
  checkout_lem pool shared len v w =
      let (valid, empty, le, same) = checkout_empty_vec-Fits pool shared len v w in
      let buf = (checkout_empty_vec alloc pool shared len).2 in
      (valid, resized len buf.bytes empty, omega (arith, grown_same alloc buf.capacity len le, le))

  -- A copy into a checked-out buffer holds exactly the slice, and needs no second allocation.
  pub copy_from_slice_lem :
      (pool : AdaptiveBufferPool) (shared : RightSizedPool) (slice : List ℕ)
      → IsValid pool
      → http.Pool.RightSized.IsValid shared
      → let (pool', shared', buf, reused) = copy_from_slice alloc pool shared slice in
        (IsValid pool' × http.Pool.RightSized.IsValid shared')
        × (buf.bytes ≡ slice)
        × (buf.capacity ≡ (checkout_empty_vec alloc pool shared (length slice)).2.capacity)
  unfolding copy_from_slice
  copy_from_slice_lem pool shared slice v w =
      let (valid, empty, le, same) = checkout_empty_vec-Fits pool shared (length slice) v w in
      let buf = (checkout_empty_vec alloc pool shared (length slice)).2 in
      (
        valid,
        ap (λ r. r ++ slice) empty,
        grown_same alloc buf.capacity (length (buf.bytes ++ slice))
            (omega (arith, le, ap (λ r. length (r ++ slice)) empty)),
      )
