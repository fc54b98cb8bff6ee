-- ===== src/Pool/Fixed.antt =====
-- src/buffer_pool.rs: `BufferPool`, the pool of packet buffers of one fixed size.
use http.Pool.{Buffer}
use http.Common.{
  Bool-cases, leb, length-replicate, ◌&&◌, ◌≡◌, ◌==◌, length, if◌then◌else◌, All, replicate, List,
  inl, inr, refl, ℕ, ◌∷◌, [], arith,
}

-- The last buffer pushed comes first.
pub record BufferPool : Type 0 where
  pub buffers : List Buffer
  pub buf_size : ℕ

-- `vec![0u8; n]`
abbrev pub zeroed : (ℕ → ℕ) → ℕ → Buffer
zeroed alloc n = record { bytes = replicate n 0; capacity = alloc n }

unfoldable pub new : (ℕ → ℕ) → ℕ → ℕ → BufferPool
new alloc pool_size buf_size = record {
  buffers = replicate pool_size (zeroed alloc buf_size);
  buf_size = buf_size;
}

abbrev pub pop_or_new : (ℕ → ℕ) → BufferPool → List Buffer → BufferPool × Buffer
pop_or_new alloc pool [] = (pool, zeroed alloc pool.buf_size)
pop_or_new alloc pool (buf ∷ rest) = (record pool { buffers = rest }, buf)

unfoldable pub checkout : (ℕ → ℕ) → BufferPool → BufferPool × Buffer
checkout alloc pool = pop_or_new alloc pool pool.buffers

unfoldable pub checkin : BufferPool → Buffer → BufferPool
checkin pool buf =
    if (length buf.bytes == pool.buf_size) && leb pool.buf_size buf.capacity
    then record pool { buffers = buf ∷ pool.buffers }
    else pool

-- Every buffer of the pool has exactly the pool's size.
abbrev pub IsValid : BufferPool → Type 0
IsValid pool = All (λ buf. length buf.bytes ≡ pool.buf_size) pool.buffers

-- Whatever buffer is checked in before, a checkout gives one of exactly the pool's size, and the
-- pool keeps only such.
pub checkin-checkout_lem :
    (alloc : ℕ → ℕ) (pool : BufferPool) (buf : Buffer)
    → IsValid pool
    → let (pool', out) = checkout alloc (checkin pool buf) in
      IsValid pool' × (length out.bytes ≡ pool.buf_size) × (pool'.buf_size ≡ pool.buf_size)
unfolding checkin checkout
checkin-checkout_lem alloc pool buf v =
    elim (Bool-cases ((length buf.bytes == pool.buf_size) && leb pool.buf_size buf.capacity)) [
      | inl e ↦ rw e (v, ground (arith, e), refl)
      | inr e ↦ rw e (popped pool.buffers v)
    ]
  where
    popped :
        (bufs : List Buffer)
        → All (λ buf. length buf.bytes ≡ pool.buf_size) bufs
        → let (pool', out) = pop_or_new alloc pool bufs in
          IsValid pool' × (length out.bytes ≡ pool.buf_size) × (pool'.buf_size ≡ pool.buf_size)
    popped [] h = (v, length-replicate pool.buf_size 0, refl)
    popped (b ∷ rest) h = (h.1, h.0, refl)
