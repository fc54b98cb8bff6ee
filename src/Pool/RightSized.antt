-- ===== src/Pool/RightSized.antt =====
-- src/buffer_pool.rs: `RightSizedPool`, the process-wide fallback pool, and `BufferPool`, the pool
-- of fixed packet buffers.
use http.Pool.Classes.{
  right_sized_classes-Ascending, largest_class_lem, smallest_class_lem, right_sized_classes,
  class_for_request, class_for_capacity,
}
use http.Pool.Bins.{pop_from-Popped, push_at-BinsValid, Popped, BinsValid}
use http.Pool.{push_at, bin_len, smallest_class, pop_from, under, clear, largest_class, Buffer}
use http.Common.{
  sym, arith, subst, le→leb, ◌∙◌, ap, drop, leb, ◌≤◌, Bool-cases, if◌then◌else◌, All, ◌≡◌, Bool,
  suc, length, Option, replicate, List, inl, inr, none, some, true, false, refl, ℕ, ◌∷◌, [], zero,
}

abbrev pub right_sized_max_per_class : ℕ
right_sized_max_per_class = 256

-- The buckets of `RightSizedPool`.
abbrev pub RightSizedPool : Type 0
RightSizedPool = List (List Buffer)

unfoldable pub new : RightSizedPool
new = replicate (length right_sized_classes) []

-- The scan of `take` from bucket `start` on. A buffer that is too small is dropped.
abbrev pub scan : ℕ → ℕ → List (List Buffer) → Option Buffer × List (List Buffer)
scan start len [] = (none, [])
scan (suc start) len (bucket ∷ buckets) =
    let (found, rest) = scan start len buckets in (found, bucket ∷ rest)
scan zero len ([] ∷ buckets) = let (found, rest) = scan zero len buckets in (found, [] ∷ rest)
scan zero len ((buf ∷ bucket) ∷ buckets) =
    let (found, rest) = scan zero len buckets in
    if leb len buf.capacity then (some (clear buf), bucket ∷ buckets) else (found, bucket ∷ rest)

abbrev pub take_from : RightSizedPool → ℕ → Option ℕ → Option Buffer × RightSizedPool
take_from pool len none = (none, pool)
take_from pool len (some start) = scan start len pool

-- `RightSizedPool::take`
unfoldable pub take_buffer : RightSizedPool → ℕ → Option Buffer × RightSizedPool
take_buffer pool len = take_from pool len (class_for_request len)

abbrev pub recycle_into : RightSizedPool → Buffer → Option ℕ → RightSizedPool × Bool
recycle_into pool buf none = (pool, false)
recycle_into pool buf (some index) =
    if leb right_sized_max_per_class (bin_len pool index)
    then (pool, false)
    else (push_at index (clear buf) pool, true)

-- `RightSizedPool::recycle`: whether the buffer was kept; otherwise it is dropped.
unfoldable pub recycle : RightSizedPool → Buffer → RightSizedPool × Bool
recycle pool buf = recycle_into pool buf (class_for_capacity buf.capacity)

abbrev pub IsValid : RightSizedPool → Type 0
IsValid pool = BinsValid (λ c. right_sized_max_per_class) right_sized_classes pool

-- Recycling keeps every bucket within its limit and every buffer within its class, whatever the
-- buffer.
pub recycle-IsValid :
    (pool : RightSizedPool) (buf : Buffer) → IsValid pool → IsValid (recycle pool buf).0
unfolding recycle class_for_capacity
recycle-IsValid pool buf v = into (largest_class right_sized_classes buf.capacity) refl
  where
    into :
        (o : Option ℕ)
        → largest_class right_sized_classes buf.capacity ≡ o
        → IsValid (recycle_into pool buf o).0
    into none e = v
    into (some i) e = elim (Bool-cases (leb right_sized_max_per_class (bin_len pool i))) [
      | inl full ↦ rw full v
      | inr room ↦
          let (c, at, le) = largest_class_lem right_sized_classes buf.capacity i e in
          rw room (
            push_at-BinsValid (λ c. right_sized_max_per_class) right_sized_classes pool i
              (clear buf) c v at le (ground (arith, room)))
    ]

-- The pop that the scan amounts to.
abbrev pub popped :
    RightSizedPool → Option (Buffer × List (List Buffer)) → Option Buffer × RightSizedPool
popped pool none = (none, pool)
popped pool (some (buf, rest)) = (some (clear buf), rest)

popped-under :
    (bucket : List Buffer) (buckets : List (List Buffer)) (o : Option (Buffer × List (List Buffer)))
    → ((popped buckets o).0, bucket ∷ (popped buckets o).1)
      ≡ popped (bucket ∷ buckets) (under bucket o)
popped-under bucket buckets none = refl
popped-under bucket buckets (some (buf, rest)) = refl

scan_lem :
    (cs : List ℕ) (start len : ℕ) (pool : List (List Buffer))
    → BinsValid (λ c. right_sized_max_per_class) cs pool
    → All (λ c. len ≤ c) (drop start cs)
    → scan start len pool ≡ popped pool (pop_from start pool)
scan_lem cs start len [] v a = refl
scan_lem [] start len (bucket ∷ buckets) v a = absurd v
scan_lem (c ∷ cs) (suc start) len (bucket ∷ buckets) v a =
    ap (λ r. (r.0, bucket ∷ r.1)) (scan_lem cs start len buckets v.2 a)
    ∙ popped-under bucket buckets (pop_from start buckets)
scan_lem (c ∷ cs) zero len ([] ∷ buckets) v a =
    ap (λ r. (r.0, [] ∷ r.1)) (scan_lem cs zero len buckets v.2 a.1)
    ∙ popped-under [] buckets (pop_from zero buckets)
scan_lem (c ∷ cs) zero len ((buf ∷ bucket) ∷ buckets) v a =
    rw (le→leb len buf.capacity (omega (arith, a.0, v.0.0))) refl

-- What `take` gives from well-formed buckets: the buckets stay well formed and a buffer found is
-- empty and fits `len`.
abbrev pub Taken : ℕ → Option Buffer × RightSizedPool → Type 0
Taken len (none, pool) = IsValid pool
Taken len (some buf, pool) = IsValid pool × (buf.bytes ≡ []) × (len ≤ buf.capacity)

popped-Taken :
    (len : ℕ) (pool : RightSizedPool) (o : Option (Buffer × List (List Buffer)))
    → IsValid pool
    → Popped (λ c. right_sized_max_per_class) right_sized_classes len o
    → Taken len (popped pool o)
popped-Taken len pool none v p = v
popped-Taken len pool (some (buf, rest)) v p = (p.1, refl, p.0)

-- From well-formed buckets, taking a buffer keeps them well formed and gives one that is empty and
-- fits; its own check of the capacity never fails: nothing is dropped, and the first buffer from
-- the bucket of the request on is the one taken.
pub take_buffer_lem :
    (pool : RightSizedPool) (len : ℕ)
    → IsValid pool
    → Taken len (take_buffer pool len)
      × ((start : ℕ)
          → class_for_request len ≡ some start
          → take_buffer pool len ≡ popped pool (pop_from start pool))
unfolding take_buffer class_for_request
take_buffer_lem pool len v = (
  into (smallest_class right_sized_classes len) refl,
  λ start e. rw e (scan_lem right_sized_classes start len pool v (fits start e)),
)
  where
    fits :
        (start : ℕ)
        → smallest_class right_sized_classes len ≡ some start
        → All (λ c. len ≤ c) (drop start right_sized_classes)
    fits start e = smallest_class_lem right_sized_classes len start right_sized_classes-Ascending e

    into :
        (o : Option ℕ)
        → smallest_class right_sized_classes len ≡ o
        → Taken len (take_from pool len o)
    into none e = v
    into (some start) e =
        let a = smallest_class_lem right_sized_classes len start right_sized_classes-Ascending e in
        subst (Taken len) (sym (scan_lem right_sized_classes start len pool v a)) (
          popped-Taken len pool (pop_from start pool) v (
            pop_from-Popped (λ c. right_sized_max_per_class) right_sized_classes pool start len v
              a))
