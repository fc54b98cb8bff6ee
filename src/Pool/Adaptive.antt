-- ===== src/Pool/Adaptive.antt =====
-- src/buffer_pool.rs: `AdaptiveBufferPool`, with the shared `RightSizedPool` that it falls back on.
pub mod Retained
use http.Pool.RightSized.{recycle, take_buffer, RightSizedPool}
use http.Pool.{clear, extend_from_slice, resize, rposition, with_capacity, Buffer}
use http.Common.{
  ◌++◌, ◌||◌, ltb, if◌then◌else◌, leb, get_elem?, Bool, take, suc, saturating_mul, length, Option,
  max, List, none, some, true, false, ℕ, ◌∷◌, [], zero,
}

pub record AdaptiveBufferPool : Type 0 where
  pub buffers : List Buffer
  pub max_buffers : ℕ
  pub min_capacity : ℕ
  pub max_retain_capacity : ℕ

unfoldable pub new : ℕ → ℕ → AdaptiveBufferPool
new max_buffers min_capacity = record {
  buffers = [];
  max_buffers = max_buffers;
  min_capacity = min_capacity;
  max_retain_capacity = max (saturating_mul min_capacity 4) min_capacity;
}

-- `buffers[i] = buf`
abbrev pub set_at : ℕ → Buffer → List Buffer → List Buffer
set_at i buf [] = []
set_at zero buf (b ∷ rest) = buf ∷ rest
set_at (suc i) buf (b ∷ rest) = b ∷ set_at i buf rest

abbrev pub last_of : Buffer → List Buffer → Buffer
last_of b [] = b
last_of b (c ∷ rest) = last_of c rest

-- `Vec::swap_remove(i)`, without the element removed: the last one takes its place.
abbrev pub swap_remove : ℕ → List Buffer → List Buffer
swap_remove i [] = []
swap_remove i (b ∷ rest) = take (length rest) (set_at i (last_of b rest) (b ∷ rest))

-- The pool, the shared pool, a buffer, and whether it is reused.
abbrev pub Checkout : Type 0
Checkout = AdaptiveBufferPool × RightSizedPool × Buffer × Bool

module _ (alloc : ℕ → ℕ) where
  abbrev pub fall_back : AdaptiveBufferPool → ℕ → Option Buffer × RightSizedPool → Checkout
  fall_back pool len (some buf, shared) = (pool, shared, buf, true)
  fall_back pool len (none, shared) =
      (pool, shared, with_capacity alloc (max len pool.min_capacity), false)

  abbrev pub take_own : AdaptiveBufferPool → RightSizedPool → ℕ → Option ℕ → Checkout
  take_own pool shared len none = fall_back pool len (take_buffer shared len)
  take_own pool shared len (some index) = elim (get_elem? pool.buffers index) [
    | none ↦ fall_back pool len (take_buffer shared len)
    | some buf ↦ (record pool { buffers = swap_remove index pool.buffers }, shared, clear buf, true)
  ]

  unfoldable pub checkout_empty_vec : AdaptiveBufferPool → RightSizedPool → ℕ → Checkout
  checkout_empty_vec pool shared len =
      take_own pool shared len (rposition (λ buf. leb len buf.capacity) pool.buffers)

  unfoldable pub checkout : AdaptiveBufferPool → RightSizedPool → ℕ → Checkout
  checkout pool shared len =
      let (pool', shared', buf, reused) = checkout_empty_vec pool shared len in
      (pool', shared', resize alloc buf len 0, reused)

  unfoldable pub copy_from_slice : AdaptiveBufferPool → RightSizedPool → List ℕ → Checkout
  copy_from_slice pool shared slice =
      let (pool', shared', buf, reused) = checkout_empty_vec pool shared (length slice) in
      (pool', shared', extend_from_slice alloc buf slice, reused)

-- `checkin`: whether the buffer was kept, by this pool or the shared one.
unfoldable pub checkin :
    AdaptiveBufferPool → RightSizedPool → Buffer → AdaptiveBufferPool × RightSizedPool × Bool
checkin pool shared buf =
    if ltb buf.capacity pool.min_capacity || ltb pool.max_retain_capacity buf.capacity
    then (pool, (recycle shared buf).0, (recycle shared buf).1)
    else if leb pool.max_buffers (length pool.buffers)
    then (pool, (recycle shared buf).0, (recycle shared buf).1)
    else (record pool { buffers = pool.buffers ++ (clear buf ∷ []) }, shared, true)

unfoldable pub drain_returned :
    AdaptiveBufferPool → RightSizedPool → List Buffer → AdaptiveBufferPool × RightSizedPool
drain_returned pool shared [] = (pool, shared)
drain_returned pool shared (buf ∷ rx) =
    let (pool', shared', kept) = checkin pool shared buf in drain_returned pool' shared' rx
