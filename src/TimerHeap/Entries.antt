-- ===== src/TimerHeap/Entries.antt =====
-- The map and the sorted entries of src/timer_heap.rs.
use http.TimerHeap.{insert, erase, push, Entry, get}
use http.Common.{
  refl, ◌&&◌, some, none, true, arith, [], ◌||◌, false, ◌==◌, if◌then◌else◌, All, ◌≤◌, ◌∷◌, ◌≡◌,
  Bool, List, ℕ,
}

pub get-erase :
    (k h : ℕ) (ds : List (ℕ × ℕ)) → get k (erase h ds) ≡ (if k == h then none else get k ds)
unfolding get erase
get-erase k h [] = ground arith
get-erase k h ((j, d) ∷ ds) = ground (arith, get-erase k h ds)

pub get-insert :
    (k h d : ℕ) (ds : List (ℕ × ℕ)) → get k (insert h d ds) ≡ (if k == h then some d else get k ds)
unfolding get insert
get-insert k h d ds = ground (arith, get-erase k h ds)

abbrev pub same : Entry → Entry → Bool
same (d, h) (e, k) = (d == e) && (h == k)

-- Whether the heap holds an entry.
abbrev pub has : Entry → List Entry → Bool
has x [] = false
has x (y ∷ ys) = same x y || has x ys

pub has-push : (x y : Entry) (heap : List Entry) → has x (push y heap) ≡ (same x y || has x heap)
unfolding push
has-push x y [] = refl
has-push x y (z ∷ heap) = ground (arith, has-push x y heap)

-- Deadlines do not fall along the heap.
abbrev pub Sorted : List Entry → Type 0
Sorted [] = Unit {0}
Sorted (x ∷ xs) = All (λ y. x.0 ≤ y.0) xs × Sorted xs

All-push :
    (n : ℕ) (y : Entry) (heap : List Entry)
    → n ≤ y.0
    → All (λ z. n ≤ z.0) heap
    → All (λ z. n ≤ z.0) (push y heap)
unfolding push
All-push n y [] h a = (h, tt)
All-push n y (z ∷ heap) h a = ground (arith, All-push n y heap h a.1)

All-weaken :
    (m n : ℕ) (heap : List Entry) → m ≤ n → All (λ z. n ≤ z.0) heap → All (λ z. m ≤ z.0) heap
All-weaken m n [] h a = tt
All-weaken m n (z ∷ heap) h a = (omega arith, All-weaken m n heap h a.1)

pub push-Sorted : (y : Entry) (heap : List Entry) → Sorted heap → Sorted (push y heap)
unfolding push
push-Sorted y [] s = (tt, tt)
push-Sorted (d, h) ((e, k) ∷ heap) s =
    ground (arith, push-Sorted (d, h) heap s.1, All-push e (d, h) heap, All-weaken d e heap, s.0)

pub has-le :
    (n : ℕ) (x : Entry) (heap : List Entry) → All (λ z. n ≤ z.0) heap → has x heap ≡ true → n ≤ x.0
has-le n x [] a h = cc
has-le n x (z ∷ heap) a h = ground (arith, has-le n x heap a.1)
