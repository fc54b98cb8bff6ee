-- ===== src/ArcBuf.antt =====
-- src/arc_buf.rs and the `Chunk` of src/chunk_pool.rs: windows over a shared byte vector. Sharing
-- is seen in one place only, `try_add_prefix`, which is told whether this handle is the sole owner.
pub mod Window
mod Tests
use http.Common.{
  ◌||◌, ◌++◌, not, ltb, ◌==◌, take, ◌∷◌, if◌then◌else◌, leb, ◌-◌, drop, Option, saturating_sub,
  Bool, ◌+◌, length, [], List, none, some, true, false, ℕ,
}

-- `pool_return` is the identity of the pool that gets the vector back.
pub record Chunk : Type 0 where
  pub bytes : List ℕ
  pub offset : ℕ
  pub pool_return : Option ℕ

abbrev pub empty : Chunk
empty = record { bytes = []; offset = 0; pool_return = none }

abbrev pub chunk_from_vec : List ℕ → Option ℕ → Chunk
chunk_from_vec bytes pool_return = record { bytes = bytes; offset = 0; pool_return = pool_return }

abbrev pub unpooled : List ℕ → Chunk
unpooled bytes = record { bytes = bytes; offset = 0; pool_return = none }

-- `Chunk::into_vec`; the vector does not go back to the pool.
unfoldable pub chunk_into_vec : Chunk → List ℕ
chunk_into_vec c = c.bytes

-- `Chunk::into_raw_parts`
unfoldable pub into_raw_parts : Chunk → List ℕ × ℕ × Option ℕ
into_raw_parts c = (c.bytes, c.offset, c.pool_return)

-- `drop` of a chunk: the pool that gets its vector back, emptied.
unfoldable pub drop_chunk : Chunk → Option (ℕ × List ℕ)
drop_chunk c = elim c.pool_return [ none ↦ none | some pool ↦ some (pool, []) ]

unfoldable pub remaining : Chunk → List ℕ
remaining c = drop c.offset c.bytes

-- `data.len() - offset`; an offset past the end is a fault that `advance` rules out.
unfoldable pub chunk_remaining_len : Chunk → ℕ
chunk_remaining_len c = length c.bytes - c.offset

unfoldable pub advance : Chunk → ℕ → Chunk
advance c n = record c { offset = c.offset + n }

unfoldable pub is_fully_written : Chunk → Bool
is_fully_written c = leb (length c.bytes) c.offset

unfoldable pub into_remaining_vec : Chunk → List ℕ
into_remaining_vec c = if c.offset == 0 then c.bytes else drop c.offset c.bytes

-- `append` compacts first where bytes were consumed.
unfoldable pub append : Chunk → List ℕ → Chunk
append c [] = c
append c (b ∷ more) =
    if ltb 0 c.offset
    then record c { bytes = drop c.offset c.bytes ++ (b ∷ more); offset = 0 }
    else record c { bytes = c.bytes ++ (b ∷ more) }

pub record ArcBuf : Type 0 where
  pub store : List ℕ
  pub pool : Option ℕ
  pub offset : ℕ
  pub len : ℕ

unfoldable pub from_vec : List ℕ → ArcBuf
from_vec v = record { store = v; pool = none; offset = 0; len = length v }

unfoldable pub from_chunk : Chunk → ArcBuf
from_chunk c = record {
  store = c.bytes;
  pool = c.pool_return;
  offset = c.offset;
  len = saturating_sub (length c.bytes) c.offset;
}

-- `as_ref`, the visible window.
abbrev pub as_ref : ArcBuf → List ℕ
as_ref b = take b.len (drop b.offset b.store)

unfoldable pub into_vec : ArcBuf → List ℕ
into_vec b = if not (b.offset == 0) || not (b.len == length b.store) then as_ref b else b.store

-- `split_at`: the head that stays and the tail that is returned; none is its assertion.
unfoldable pub split_at : ArcBuf → ℕ → Option (ArcBuf × ArcBuf)
split_at b at =
    if leb at b.len
    then some (record b { len = at }, record b { offset = b.offset + at; len = b.len - at })
    else none

-- `vec[at..at + prefix.len()].copy_from_slice(prefix)`
abbrev pub overwrite : List ℕ → ℕ → List ℕ → List ℕ
overwrite v at prefix = take at v ++ (prefix ++ drop (at + length prefix) v)

unfoldable pub try_add_prefix : ArcBuf → List ℕ → Bool → ArcBuf × Bool
try_add_prefix b prefix sole =
    if length prefix == 0
    then (b, true)
    else if ltb b.offset (length prefix)
    then (b, false)
    else if not sole
    then (b, false)
    else let at = b.offset - length prefix in
      (
        record b { store = overwrite b.store at prefix; offset = at; len = b.len + length prefix },
        true,
      )
