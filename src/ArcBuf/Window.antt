-- ===== src/ArcBuf/Window.antt =====
-- The windows of src/arc_buf.rs.
use native.Mathlib.Nat.{add_comm}
use http.ArcBuf.{overwrite, as_ref, try_add_prefix, split_at, ArcBuf}
use http.Common.{
  inr, drop-take, ◌∙◌, drop-add, ap, take-take, take-add_append, sym, ◌&&◌, refl, leb→le, none,
  ◌||◌, [], length-append, drop-take_append, inl, false, ◌<◌, ◌==◌, ◌∷◌, ◌-◌, Bool-cases, leb,
  Option, length-drop, ◌++◌, drop, length-take, if◌then◌else◌, take, arith, Bool, ◌≤◌, List, ◌≡◌,
  length, ◌+◌, some, ℕ,
}

-- The window lies within the vector.
abbrev pub InBounds : ArcBuf → Type 0
InBounds b = b.offset + b.len ≤ length b.store

pub length-as_ref : (b : ArcBuf) → InBounds b → length (as_ref b) ≡ b.len
length-as_ref b h =
    omega (arith, length-take b.len (drop b.offset b.store), length-drop b.offset b.store)

-- What `split_at` does: beyond the length it is a fault; otherwise the head shows the first bytes
-- of the window, and the tail the others.
abbrev pub SplitsAt : ArcBuf → ℕ → Option (ArcBuf × ArcBuf) → Type 0
SplitsAt b n none = b.len < n
SplitsAt b n (some (head, tail)) =
    InBounds head
    × InBounds tail
    × (as_ref head ≡ take n (as_ref b))
    × (as_ref tail ≡ drop n (as_ref b))
    × (head.len + tail.len ≡ b.len)

too_far : (n len : ℕ) → leb n len ≡ false → len < n
too_far n len h = ground arith

-- Splitting a window loses nothing: the head shows its first `n` bytes, the tail the others, both
-- windows lie within the vector, and a split beyond the length is the fault of the assertion.
pub split_at-SplitsAt : (b : ArcBuf) (n : ℕ) → InBounds b → SplitsAt b n (split_at b n)
unfolding split_at
split_at-SplitsAt b n h = elim (Bool-cases (leb n b.len)) [
  | inl le ↦
      let fits : n ≤ b.len = leb→le n b.len le in
      rw le (
        omega (arith, fits),
        omega (arith, fits),
        sym (take-take n b.len (drop b.offset b.store) fits),
        ap (take (b.len - n)) (drop-add b.store b.offset n)
            ∙ sym (drop-take n b.len (drop b.offset b.store)),
        omega (arith, fits),
      )
  | inr gt ↦ rw gt (too_far n b.len gt)
]

prefixed :
    (v prefix : List ℕ) (offset len : ℕ)
    → offset + len ≤ length v
    → length prefix ≤ offset
    → take
        (len + length prefix)
        (drop (offset - length prefix) (overwrite v (offset - length prefix) prefix))
      ≡ prefix ++ take len (drop offset v)
prefixed v prefix offset len h k =
    rw
      (
        drop-take_append (offset - length prefix) v
            (prefix ++ drop (offset - length prefix + length prefix) v) (omega arith),
        add_comm len (length prefix),
        take-add_append prefix (drop (offset - length prefix + length prefix) v) len,
      )
      (ap (λ n. prefix ++ take len (drop n v)) (omega arith))

length-overwrite :
    (v prefix : List ℕ) (at : ℕ)
    → at + length prefix ≤ length v
    → length (overwrite v at prefix) ≡ length v
length-overwrite v prefix at h = omega (
  arith,
  length-append (take at v) (prefix ++ drop (at + length prefix) v),
  length-append prefix (drop (at + length prefix) v),
  length-take at v,
  length-drop (at + length prefix) v,
)

empty_prefix : (prefix ys : List ℕ) → length prefix ≡ 0 → ys ≡ prefix ++ ys
empty_prefix [] ys h = refl
empty_prefix (x ∷ prefix) ys h = absurd (omega (arith, h))

-- A prefix is put in front of the window, which stays within the vector, or nothing changes; it is
-- refused if another handle shares the vector, or there is no room before the window.
pub try_add_prefix_lem :
    (b : ArcBuf) (prefix : List ℕ) (sole : Bool)
    → InBounds b
    → let (b', done) = try_add_prefix b prefix sole in
      InBounds b'
      × (as_ref b' ≡ (if done then prefix ++ as_ref b else as_ref b))
      × (done ≡ ((length prefix == 0) || (leb (length prefix) b.offset && sole)))
unfolding try_add_prefix
try_add_prefix_lem b prefix sole h = ground (
  arith,
  prefixed b.store prefix b.offset b.len h,
  length-overwrite b.store prefix (b.offset - length prefix),
  empty_prefix prefix (as_ref b),
)
