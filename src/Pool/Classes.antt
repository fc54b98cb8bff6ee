-- ===== src/Pool/Classes.antt =====
-- src/proof_core/chunk_pool_model.rs and src/proof_core/buffer_pool_model.rs: the two tables of
-- size classes, and what the search in such a table finds.
use http.Pool.{class_at, position, last_class, rposition, largest_class, smallest_class}
use http.Common.{
  ◌∙◌, ap, true, Bool, refl, zero, All-mono, inr, leb→le, inl, Option-cases, Bool-cases, ltb, suc,
  none, if◌then◌else◌, get_elem?, leb, drop, ◌≡◌, ◌≤◌, All, [], arith, Option, List, some, ℕ, ◌∷◌,
}

abbrev pub chunk_classes : List ℕ
chunk_classes = 1024 ∷ 2048 ∷ 4096 ∷ 8192 ∷ 16384 ∷ 32768 ∷ 65536 ∷ []

abbrev pub right_sized_classes : List ℕ
right_sized_classes = 16384 ∷ 65536 ∷ 262144 ∷ 1048576 ∷ 4194304 ∷ []

unfoldable pub bin_for : ℕ → Option ℕ
bin_for len = smallest_class chunk_classes len

unfoldable pub bin_for_cap : ℕ → Option ℕ
bin_for_cap cap = largest_class chunk_classes cap

unfoldable pub class_for_request : ℕ → Option ℕ
class_for_request len = smallest_class right_sized_classes len

unfoldable pub class_for_capacity : ℕ → Option ℕ
class_for_capacity capacity = largest_class right_sized_classes capacity

abbrev pub Ascending : List ℕ → Type 0
Ascending [] = Unit {0}
Ascending (c ∷ cs) = All (λ d. c ≤ d) cs × Ascending cs

pub chunk_classes-Ascending : Ascending chunk_classes
chunk_classes-Ascending = ground arith

pub right_sized_classes-Ascending : Ascending right_sized_classes
right_sized_classes-Ascending = ground arith

later :
    (o : Option ℕ) (i : ℕ)
    → (elim o [ none ↦ none | some i ↦ some (suc i) ]) ≡ some (suc i)
    → o ≡ some i
later none i q = absurd (ground arith)
later (some j) i q = ground (arith, q)

-- From the smallest class that fits on, every class fits.
pub smallest_class_lem :
    (cs : List ℕ) (len i : ℕ)
    → Ascending cs
    → smallest_class cs len ≡ some i
    → All (λ c. len ≤ c) (drop i cs)
smallest_class_lem [] len i a h = absurd (ground arith)
smallest_class_lem (c ∷ cs) len zero a h = elim (Bool-cases (leb len c)) [
  | inl e ↦
      let le = leb→le len c e in
      (le, All-mono (λ d. c ≤ d) (λ d. len ≤ d) cs (λ d k. omega (arith, le, k)) a.0)
  | inr e ↦ absurd (not_first (position (λ d. leb len d) cs) (rw e at h))
]
  where
    not_first : (o : Option ℕ) → (elim o [ none ↦ none | some i ↦ some (suc i) ]) ≡ some 0 → ⊥
    not_first none q = ground arith
    not_first (some i) q = ground arith
smallest_class_lem (c ∷ cs) len (suc i) a h = elim (Bool-cases (leb len c)) [
  | inl e ↦ absurd (ground (arith, rw e at h))
  | inr e ↦ smallest_class_lem cs len i a.1 (later (position (λ d. leb len d) cs) i (rw e at h))
]

-- In particular the class found fits.
pub class_at_fits :
    (cs : List ℕ) (len i : ℕ)
    → smallest_class cs len ≡ some i
    → All (λ c. len ≤ c) (drop i cs)
    → len ≤ class_at cs i
class_at_fits [] len i e h = absurd (ground arith)
class_at_fits (c ∷ cs) len zero e h = h.0
class_at_fits (c ∷ cs) len (suc i) e h = elim (Bool-cases (leb len c)) [
  | inl q ↦ absurd (ground (arith, rw q at e))
  | inr q ↦ class_at_fits cs len i (later (position (λ d. leb len d) cs) i (rw q at e)) h
]

-- What `rposition` finds passes the test.
pub rposition_lem {ℓ} :
    {A : Type ℓ} (p : A → Bool) (xs : List A) (i : ℕ)
    → rposition p xs ≡ some i
    → (x : A) × (get_elem? xs i ≡ some x) × (p x ≡ true)
rposition_lem p [] i h = absurd (ground arith)
rposition_lem {A = A} p (x ∷ xs) i h = elim (Option-cases (rposition p xs)) [
  | inl e ↦ here i (rw e at h)
  | inr (j, e) ↦ there i j (rposition_lem p xs j e) (rw e at h)
]
  where
    here :
        (i : ℕ)
        → (if p x then some 0 else none) ≡ some i
        → (y : A) × (get_elem? (x ∷ xs) i ≡ some y) × (p y ≡ true)
    here zero q = (x, refl, ground arith)
    here (suc i) q = absurd (ground arith)

    there :
        (i j : ℕ)
        → (y : A) × (get_elem? xs j ≡ some y) × (p y ≡ true)
        → some (suc j) ≡ some i
        → (y : A) × (get_elem? (x ∷ xs) i ≡ some y) × (p y ≡ true)
    there zero j r q = absurd (ground arith)
    there (suc i) j (y, e, t) q = (y, ap (get_elem? xs) (ground (arith, q)) ∙ e, t)

-- The largest class found is covered by the capacity.
pub largest_class_lem :
    (cs : List ℕ) (capacity i : ℕ)
    → largest_class cs capacity ≡ some i
    → (c : ℕ) × (get_elem? cs i ≡ some c) × (c ≤ capacity)
largest_class_lem cs capacity i h =
    let (c, e, q) = rposition_lem (λ c. leb c capacity) cs i (in_range (last_class cs) h) in
    (c, e, leb→le c capacity q)
  where
    in_range :
        (m : Option ℕ)
        → (elim m [
          | none ↦ none
          | some max_class ↦
              if ltb max_class capacity then none else rposition (λ c. leb c capacity) cs
        ])
          ≡ some i
        → rposition (λ c. leb c capacity) cs ≡ some i
    in_range none q = absurd (ground arith)
    in_range (some m) q = ground (arith, q)
