-- ===== src/TimerHeap/Valid.antt =====
-- The invariant of src/timer_heap.rs: every deadline of the map has its entry in the heap.
use http.TimerHeap.Entries.{has-push, get-erase, get-insert, has, push-Sorted, Sorted}
use http.TimerHeap.{
  insert, push, erase, is_current_deadline, get, Entry, set_deadline, remove_connection, schedule,
  new, maybe_compact, compact, repush, TimerHeap,
}
use http.Common.{
  Bool-cases, ◌∷◌, inl, inr, none, some, true, refl, [], ◌||◌, ◌==◌, ◌&&◌, if◌then◌else◌, Option,
  ◌≡◌, arith, List, ℕ,
}

abbrev pub Covers : List Entry → List (ℕ × ℕ) → Type 0
Covers heap ds = (k d : ℕ) → get k ds ≡ some d → has (d, k) heap ≡ true

pub record IsValid (t : TimerHeap) : Type 0 where
  pub sorted : Sorted t.heap
  pub covers : Covers t.heap t.deadlines

repush-Sorted :
    (ds : List (ℕ × ℕ)) (heap acc : List Entry) → Sorted acc → Sorted (repush ds heap acc)
unfolding repush
repush-Sorted ds [] acc s = s
repush-Sorted ds ((d, h) ∷ rest) acc s = elim (Bool-cases (is_current_deadline ds h d)) [
  | inl e ↦ rw e (repush-Sorted ds rest (push (d, h) acc) (push-Sorted (d, h) acc s))
  | inr e ↦ rw e (repush-Sorted ds rest acc s)
]

has-repush :
    (ds : List (ℕ × ℕ)) (heap acc : List Entry) (k d : ℕ)
    → has (d, k) (repush ds heap acc)
      ≡ ((has (d, k) heap && is_current_deadline ds k d) || has (d, k) acc)
unfolding repush
has-repush ds [] acc k d = refl
has-repush ds ((e, h) ∷ rest) acc k d = elim (Bool-cases (is_current_deadline ds h e)) [
  | inl c ↦
      rw c (ground (arith, c, has-repush ds rest (push (e, h) acc) k d, has-push (d, k) (e, h) acc))
  | inr c ↦ rw c (ground (arith, c, has-repush ds rest acc k d))
]

compact-IsValid : (t : TimerHeap) → IsValid t → IsValid (compact t)
unfolding compact is_current_deadline
compact-IsValid t v = record {
  sorted = repush-Sorted t.deadlines t.heap [] tt;
  covers =
      λ k d e. ground (arith, has-repush t.deadlines t.heap [] k d, v.covers k d e, current k d e);
}
  where
    current : (k d : ℕ) → get k t.deadlines ≡ some d → is_current_deadline t.deadlines k d ≡ true
    current k d e = rw (e, is_current_deadline) (ground arith)

maybe_compact-IsValid : (t : TimerHeap) → IsValid t → IsValid (maybe_compact t)
unfolding maybe_compact
maybe_compact-IsValid t v = ground (arith, compact-IsValid t v)

maybe_compact-deadlines : (t : TimerHeap) → (maybe_compact t).deadlines ≡ t.deadlines
unfolding maybe_compact compact
maybe_compact-deadlines t = ground arith

pub new-IsValid : IsValid new
unfolding new get
new-IsValid = record { sorted = tt; covers = λ k d e. absurd (cc) }

pub schedule-IsValid : (t : TimerHeap) (h d : ℕ) → IsValid t → IsValid (schedule t h d)
unfolding schedule
schedule-IsValid t h d v = maybe_compact-IsValid _ (record {
  sorted = push-Sorted (d, h) t.heap v.sorted;
  covers = λ k e g.
      ground (arith, g, get-insert k h d t.deadlines, has-push (e, k) (d, h) t.heap, v.covers k e);
})

pub remove_connection-IsValid :
    (t : TimerHeap) (h : ℕ) → IsValid t → IsValid (remove_connection t h)
unfolding remove_connection
remove_connection-IsValid t h v = maybe_compact-IsValid _ (record {
  sorted = v.sorted;
  covers = λ k e g. ground (arith, g, get-erase k h t.deadlines, v.covers k e);
})

-- The deadline that counts for a handle.
abbrev pub deadline_of : TimerHeap → ℕ → Option ℕ
deadline_of t k = get k t.deadlines

-- `set_deadline` sets the deadline of its handle, clears it for `None`, leaves the others, and
-- keeps the invariant; compaction of the heap is not seen.
pub set_deadline_lem :
    (t : TimerHeap) (h : ℕ) (deadline : Option ℕ)
    → IsValid t
    → IsValid (set_deadline t h deadline)
      × ((k : ℕ)
          → deadline_of (set_deadline t h deadline) k
            ≡ (if k == h then deadline else deadline_of t k))
unfolding set_deadline schedule remove_connection
set_deadline_lem t h none v = (remove_connection-IsValid t h v, λ k. after k)
  where
    after :
        (k : ℕ) → deadline_of (remove_connection t h) k ≡ (if k == h then none else deadline_of t k)
    after k =
        rw (maybe_compact-deadlines (record t { deadlines = erase h t.deadlines }))
          (get-erase k h t.deadlines)
set_deadline_lem t h (some d) v = (schedule-IsValid t h d v, λ k. after k)
  where
    after : (k : ℕ) → deadline_of (schedule t h d) k ≡ (if k == h then some d else deadline_of t k)
    after k =
        rw
          (maybe_compact-deadlines
            (record { heap = push (d, h) t.heap; deadlines = insert h d t.deadlines }))
          (get-insert k h d t.deadlines)
