-- ===== src/Pool.antt =====
-- The pools of reusable buffers: src/chunk_pool.rs, src/buffer_pool.rs and their size classes in
-- src/proof_core. Here: `Vec<u8>` with its capacity, size classes, and bins of buffers.
pub mod Bins
pub mod Classes
pub mod ChunkPool
pub mod RightSized
pub mod Adaptive
pub mod Fixed
mod Tests
mod SharedTests
use http.Common.{
  ◌-◌, zero, ltb, length, replicate, suc, get_elem?, Option, ◌++◌, leb, Bool, take, if◌then◌else◌,
  [], List, none, some, ℕ, ◌∷◌,
}

-- `Vec<u8>`: its bytes and the capacity of its allocation.
pub record Buffer : Type 0 where
  pub bytes : List ℕ
  pub capacity : ℕ

-- `Vec::new()`
abbrev pub empty_vec : Buffer
empty_vec = record { bytes = []; capacity = 0 }

abbrev pub clear : Buffer → Buffer
clear buf = record buf { bytes = [] }

-- `alloc n` is the capacity of an allocation for `n` bytes, which is the allocator's choice.
module _ (alloc : ℕ → ℕ) where
  abbrev pub with_capacity : ℕ → Buffer
  with_capacity n = record { bytes = []; capacity = alloc n }

  -- The capacity after growing to `n` bytes.
  abbrev pub grown : ℕ → ℕ → ℕ
  grown capacity n = if leb n capacity then capacity else alloc n

  abbrev pub resize : Buffer → ℕ → ℕ → Buffer
  resize buf len value = record {
    bytes = take len buf.bytes ++ replicate (len - length buf.bytes) value;
    capacity = grown buf.capacity len;
  }

  abbrev pub extend_from_slice : Buffer → List ℕ → Buffer
  extend_from_slice buf slice = record {
    bytes = buf.bytes ++ slice;
    capacity = grown buf.capacity (length (buf.bytes ++ slice));
  }

-- `iter().position(p)`
abbrev pub position {ℓ} : {A : Type ℓ} → (A → Bool) → List A → Option ℕ
position p [] = none
position p (x ∷ xs) =
    let later = position p xs in
    if p x then some 0 else elim later [ none ↦ none | some i ↦ some (suc i) ]

-- `iter().rposition(p)`
abbrev pub rposition {ℓ} : {A : Type ℓ} → (A → Bool) → List A → Option ℕ
rposition p [] = none
rposition p (x ∷ xs) = elim (rposition p xs) [
  | some i ↦ some (suc i)
  | none ↦ if p x then some 0 else none
]

-- `*classes.last()?`
abbrev pub last_class : List ℕ → Option ℕ
last_class [] = none
last_class (c ∷ []) = some c
last_class (c ∷ d ∷ cs) = last_class (d ∷ cs)

-- The smallest class of at least `len`.
abbrev pub smallest_class : List ℕ → ℕ → Option ℕ
smallest_class classes len = position (λ c. leb len c) classes

-- The largest class of at most `capacity`; none above the largest class.
abbrev pub largest_class : List ℕ → ℕ → Option ℕ
largest_class classes capacity = elim (last_class classes) [
  | none ↦ none
  | some max_class ↦
      if ltb max_class capacity then none else rposition (λ c. leb c capacity) classes
]

-- `classes[i]`; the index is always in range.
abbrev pub class_at : List ℕ → ℕ → ℕ
class_at classes i = elim (get_elem? classes i) [ none ↦ 0 | some c ↦ c ]

-- A bin is a stack of buffers, its top first. `bins[i].len()`
abbrev pub bin_len : List (List Buffer) → ℕ → ℕ
bin_len bins i = elim (get_elem? bins i) [ none ↦ 0 | some b ↦ length b ]

-- `bins[i].push(buf)`
abbrev pub push_at : ℕ → Buffer → List (List Buffer) → List (List Buffer)
push_at i buf [] = []
push_at zero buf (b ∷ bins) = (buf ∷ b) ∷ bins
push_at (suc i) buf (b ∷ bins) = b ∷ push_at i buf bins

abbrev pub under :
    List Buffer → Option (Buffer × List (List Buffer)) → Option (Buffer × List (List Buffer))
under b none = none
under b (some (buf, bins)) = some (buf, b ∷ bins)

-- Popping from bin `i`, or from the first larger one that has a buffer.
abbrev pub pop_from : ℕ → List (List Buffer) → Option (Buffer × List (List Buffer))
pop_from i [] = none
pop_from (suc i) (b ∷ bins) = under b (pop_from i bins)
pop_from zero ([] ∷ bins) = under [] (pop_from zero bins)
pop_from zero ((buf ∷ b) ∷ bins) = some (buf, b ∷ bins)
