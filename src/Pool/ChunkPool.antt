-- ===== src/Pool/ChunkPool.antt =====
-- src/chunk_pool.rs: `ChunkPool`, the pool of the outbound payload chunks. The return channel is
-- the list of the buffers that it holds.
pub mod Checkout
use http.Pool.Classes.{chunk_classes, bin_for, bin_for_cap}
use http.Pool.{
  push_at, empty_vec, with_capacity, bin_len, pop_from, extend_from_slice, resize, clear, Buffer,
  class_at,
}
use http.Common.{
  ◌/◌, ◌==◌, ltb, max, Bool, leb, length, Option, if◌then◌else◌, replicate, List, none, some, true,
  false, ℕ, ◌∷◌, [],
}

pub record ChunkPool : Type 0 where
  pub bins : List (List Buffer)
  pub max_per_bin : ℕ

unfoldable pub new : ℕ → ChunkPool
new max_per_bin = record { bins = replicate (length chunk_classes) []; max_per_bin = max_per_bin }

-- The limit of a bin of class `c`.
abbrev pub max_of : ℕ → ℕ → ℕ
max_of max_per_bin c = if leb c 4096 then max_per_bin else max (max_per_bin / 8) 1

abbrev pub max_entries_for_bin : ChunkPool → ℕ → ℕ
max_entries_for_bin pool bin_idx = max_of pool.max_per_bin (class_at chunk_classes bin_idx)

-- Putting a buffer into the bin found for it, if there is one and it has room.
abbrev pub put : ChunkPool → Buffer → Option ℕ → ChunkPool × Bool
put pool buf none = (pool, false)
put pool buf (some bin_idx) =
    if ltb (bin_len pool.bins bin_idx) (max_entries_for_bin pool bin_idx)
    then (record pool { bins = push_at bin_idx buf pool.bins }, true)
    else (pool, false)

-- `checkin`: whether the buffer was kept; otherwise it is dropped.
unfoldable pub checkin : ChunkPool → Buffer → ChunkPool × Bool
checkin pool buf = put pool buf (bin_for_cap buf.capacity)

-- `drain_returned`: the buffers that the channel holds, in order.
unfoldable pub drain_returned : ChunkPool → List Buffer → ChunkPool
drain_returned pool [] = pool
drain_returned pool (buf ∷ rx) = drain_returned (checkin pool buf).0 rx

module _ (alloc : ℕ → ℕ) where
  -- What a search in the bins gave: the buffer, emptied, or a new one of the size given.
  abbrev pub reuse_or :
      ChunkPool → ℕ → Option (Buffer × List (List Buffer)) → ChunkPool × Buffer × Bool
  reuse_or pool size (some (buf, bins)) = (record pool { bins = bins }, clear buf, true)
  reuse_or pool size none = (pool, with_capacity alloc size, false)

  -- The search from the bin found on.
  abbrev pub search_empty : ChunkPool → ℕ → Option ℕ → ChunkPool × Buffer × Bool
  search_empty pool len none = (pool, with_capacity alloc len, false)
  search_empty pool len (some bin_idx) =
      reuse_or pool (class_at chunk_classes bin_idx) (pop_from bin_idx pool.bins)

  -- `checkout_for_copy`: an empty buffer, and whether it is reused.
  unfoldable pub checkout_for_copy : ChunkPool → ℕ → ChunkPool × Buffer × Bool
  checkout_for_copy pool len =
      if len == 0 then (pool, empty_vec, false) else search_empty pool len (bin_for len)

  abbrev pub fill : ℕ → ChunkPool × Buffer × Bool → ChunkPool × Buffer × Bool
  fill len (pool, buf, reused) = (pool, resize alloc buf len 0, reused)

  abbrev pub search_filled : ChunkPool → ℕ → Option ℕ → ChunkPool × Buffer × Bool
  search_filled pool len none = (pool, resize alloc (with_capacity alloc len) len 0, false)
  search_filled pool len (some bin_idx) =
      fill len (reuse_or pool (class_at chunk_classes bin_idx) (pop_from bin_idx pool.bins))

  -- `checkout`: a buffer of `len` zeros, and whether it is reused.
  unfoldable pub checkout : ChunkPool → ℕ → ChunkPool × Buffer × Bool
  checkout pool len =
      if len == 0 then (pool, empty_vec, false) else search_filled pool len (bin_for len)

  unfoldable pub checkout_copy : ChunkPool → List ℕ → ChunkPool × Buffer × Bool
  checkout_copy pool bytes =
      let (pool', buf, reused) = checkout_for_copy pool (length bytes) in
      (pool', extend_from_slice alloc buf bytes, reused)
