-- ===== src/Pool/ChunkPool/Checkout.antt =====
-- The well-formedness of `ChunkPool` of src/chunk_pool.rs, and what its checkouts give.
use http.Pool.{
  push_at, pop_from, class_at, bin_len, resize, smallest_class, empty_vec, largest_class, grown,
  Buffer,
}
use http.Pool.Bins.{pop_from-Popped, push_at-BinsValid, Popped, BinsValid}
use http.Pool.Classes.{
  largest_class_lem, class_at_fits, chunk_classes-Ascending, smallest_class_lem, chunk_classes,
  bin_for, bin_for_cap,
}
use http.Pool.ChunkPool.{
  max_entries_for_bin, search_empty, reuse_or, put, search_filled, fill, max_of, checkout_for_copy,
  ChunkPool, new,
}
use http.Pool.ChunkPool.{checkin, checkout, checkout_copy, drain_returned}
use http.Common.{
  ltb→lt, ltb, Bool-cases, get_elem?, ap, sym, ◌-◌, subst, ◌++◌, length, replicate, Bool, take,
  ◌==◌, Option, ◌≡◌, ◌≤◌, List, inl, inr, none, some, true, false, refl, ℕ, ◌∷◌, [], zero, suc,
  arith,
}

abbrev pub IsValid : ChunkPool → Type 0
IsValid pool = BinsValid (max_of pool.max_per_bin) chunk_classes pool.bins

-- A new pool is well formed: every buffer has the capacity of its bin's class, and no bin holds
-- more than its limit.
pub new-IsValid : (max_per_bin : ℕ) → IsValid (new max_per_bin)
unfolding new
new-IsValid max_per_bin = ground arith

-- Checking a buffer in keeps the pool well formed, whatever the buffer.
pub checkin-IsValid :
    (pool : ChunkPool) (buf : Buffer) → IsValid pool → IsValid (checkin pool buf).0
unfolding checkin bin_for_cap
checkin-IsValid pool buf v = put-IsValid (largest_class chunk_classes buf.capacity) refl
  where
    put-IsValid :
        (o : Option ℕ) → largest_class chunk_classes buf.capacity ≡ o → IsValid (put pool buf o).0
    put-IsValid none e = v
    put-IsValid (some i) e =
        elim (Bool-cases (ltb (bin_len pool.bins i) (max_entries_for_bin pool i))) [
          | inl room ↦
              let (c, at, le) = largest_class_lem chunk_classes buf.capacity i e in
              rw room (pushed i c at le room)
          | inr full ↦ rw full v
        ]
      where
        pushed :
            (i c : ℕ)
            → get_elem? chunk_classes i ≡ some c
            → c ≤ buf.capacity
            → ltb (bin_len pool.bins i) (max_entries_for_bin pool i) ≡ true
            → IsValid (record pool { bins = push_at i buf pool.bins })
        pushed i c at le room =
            push_at-BinsValid (max_of pool.max_per_bin) chunk_classes pool.bins i buf c v at le (
              ltb→lt (bin_len pool.bins i) (max_of pool.max_per_bin (class_at chunk_classes i))
                room)

-- So does draining the channel of returned buffers.
pub drain_returned-IsValid :
    (pool : ChunkPool) (rx : List Buffer) → IsValid pool → IsValid (drain_returned pool rx)
unfolding drain_returned
drain_returned-IsValid pool [] v = v
drain_returned-IsValid pool (buf ∷ rx) v =
    drain_returned-IsValid (checkin pool buf).0 rx (checkin-IsValid pool buf v)

pub resized :
    (n : ℕ) (bytes : List ℕ)
    → bytes ≡ []
    → take n bytes ++ replicate (n - length bytes) 0 ≡ replicate n 0
resized zero [] e = refl
resized (suc n) [] e = ap (λ k. replicate k 0) {x = suc n - 0} {y = suc n} (omega arith)
resized n (b ∷ bytes) e = absurd (ground arith)

pub grown_same : (alloc : ℕ → ℕ) (capacity n : ℕ) → n ≤ capacity → grown alloc capacity n ≡ capacity
grown_same alloc capacity n le = ground (arith, le)

-- A well-formed pool and a buffer of `len` zeros, and no other pool unless the buffer is reused.
abbrev pub ZeroFilled : ChunkPool → ℕ → ChunkPool × Buffer × Bool → Type 0
ZeroFilled pool len (pool', buf, reused) =
    IsValid pool'
    × (buf.bytes ≡ replicate len 0)
    × (len ≤ buf.capacity)
    × (reused ≡ false → pool' ≡ pool)

module _ (alloc : ℕ → ℕ) (alloc_le : (n : ℕ) → n ≤ alloc n) where
  -- A checkout for a copy: the pool stays well formed, the buffer is empty and fits `len`, and
  -- the pool is untouched unless the buffer is reused.
  abbrev Fits : ChunkPool → ℕ → ChunkPool × Buffer × Bool → Type 0
  Fits pool len (pool', buf, reused) =
      IsValid pool' × (buf.bytes ≡ []) × (len ≤ buf.capacity) × (reused ≡ false → pool' ≡ pool)

  reuse_or-Fits :
      (pool : ChunkPool) (len size : ℕ) (o : Option (Buffer × List (List Buffer)))
      → IsValid pool
      → len ≤ size
      → Popped (max_of pool.max_per_bin) chunk_classes len o
      → Fits pool len (reuse_or alloc pool size o)
  reuse_or-Fits pool len size none v le p = (v, refl, omega (arith, alloc_le size), λ e. refl)
  reuse_or-Fits pool len size (some (buf, bins)) v le p = (p.1, refl, p.0, λ e. absurd (cc))

  checkout_for_copy-Fits :
      (pool : ChunkPool) (len : ℕ) → IsValid pool → Fits pool len (checkout_for_copy alloc pool len)
  unfolding checkout_for_copy bin_for
  checkout_for_copy-Fits pool len v = elim (Bool-cases (len == 0)) [
    | inl e ↦ rw e (v, refl, ground arith, λ q. refl)
    | inr e ↦ rw e (into (smallest_class chunk_classes len) refl)
  ]
    where
      into :
          (o : Option ℕ)
          → smallest_class chunk_classes len ≡ o
          → Fits pool len (search_empty alloc pool len o)
      into none q = (v, refl, alloc_le len, λ r. refl)
      into (some i) q =
          let fit = smallest_class_lem chunk_classes len i chunk_classes-Ascending q in
          reuse_or-Fits pool len (class_at chunk_classes i) (pop_from i pool.bins) v
            (class_at_fits chunk_classes len i q fit)
            (pop_from-Popped (max_of pool.max_per_bin) chunk_classes pool.bins i len v fit)

  empty_resize : (n : ℕ) → (n == 0) ≡ true → empty_vec ≡ resize alloc empty_vec n 0
  empty_resize zero e = refl
  empty_resize (suc n) e = absurd (ground arith)

  -- `checkout` is `checkout_for_copy` with the buffer filled.
  checkout-fill :
      (pool : ChunkPool) (len : ℕ)
      → checkout alloc pool len ≡ fill alloc len (checkout_for_copy alloc pool len)
  unfolding checkout checkout_for_copy
  checkout-fill pool len = elim (Bool-cases (len == 0)) [
    | inl e ↦ rw e (ap (λ b. (pool, b, false)) (empty_resize len e))
    | inr e ↦ rw e (searched (bin_for len))
  ]
    where
      searched :
          (o : Option ℕ)
          → search_filled alloc pool len o ≡ fill alloc len (search_empty alloc pool len o)
      searched none = refl
      searched (some i) = refl

  -- A checkout from a well-formed pool: the pool stays well formed and the buffer has exactly
  -- `len` bytes, all of them zero, and a capacity of at least `len`; unless the buffer is reused, the pool is untouched.
  pub checkout_lem :
      (pool : ChunkPool) (len : ℕ)
      → IsValid pool
      → let (pool', buf, reused) = checkout alloc pool len in
        IsValid pool'
        × (buf.bytes ≡ replicate len 0)
        × (len ≤ buf.capacity)
        × (reused ≡ false → pool' ≡ pool)
  checkout_lem pool len v =
      subst (λ r. ZeroFilled pool len r) (sym (checkout-fill pool len))
        (filled (checkout_for_copy alloc pool len) (checkout_for_copy-Fits pool len v))
    where
      filled :
          (r : ChunkPool × Buffer × Bool)
          → Fits pool len r
          → let (pool', buf, reused) = fill alloc len r in
            IsValid pool'
            × (buf.bytes ≡ replicate len 0)
            × (len ≤ buf.capacity)
            × (reused ≡ false → pool' ≡ pool)
      filled (pool', buf, reused) (w, empty, le, same) = (
        w,
        resized len buf.bytes empty,
        omega (arith, grown_same alloc buf.capacity len le, le),
        same,
      )

  -- Copying into a checked-out buffer gives exactly the bytes, without growing a reused buffer.
  pub checkout_copy_lem :
      (pool : ChunkPool) (bytes : List ℕ)
      → IsValid pool
      → let (pool', buf, reused) = checkout_copy alloc pool bytes in
        IsValid pool'
        × (buf.bytes ≡ bytes)
        × (buf.capacity ≡ (checkout_for_copy alloc pool (length bytes)).1.capacity)
        × (length bytes ≤ buf.capacity)
  unfolding checkout_copy
  checkout_copy_lem pool bytes v =
      let (w, empty, le, same) = checkout_for_copy-Fits pool (length bytes) v in
      let buf = (checkout_for_copy alloc pool (length bytes)).1 in
      let no_growth =
        grown_same alloc buf.capacity (length (buf.bytes ++ bytes))
          (omega (arith, le, ap (λ r. length (r ++ bytes)) empty)) in
      (w, ap (λ r. r ++ bytes) empty, no_growth, omega (arith, no_growth, le))
