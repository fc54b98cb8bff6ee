-- ===== src/TimerHeap/Next.antt =====
-- The next deadline of src/timer_heap.rs.
use http.TimerHeap.Expiry.{current_head, stale-Covers}
use http.TimerHeap.Entries.{has-le, Sorted}
use http.TimerHeap.Valid.{Covers, deadline_of, IsValid}
use http.TimerHeap.{get, Entry, peek, next_deadline, drop_stale, is_current_deadline, TimerHeap}
use http.Common.{
  Bool-cases, ◌∷◌, arith, Option-cases, [], ◌≤◌, ◌≡◌, ℕ, Option, List, inl, inr, none, some, refl,
}

-- Nothing is pending, or the earliest deadline of any handle.
abbrev pub IsEarliest : TimerHeap → Option ℕ → Type 0
IsEarliest t none = (k : ℕ) → deadline_of t k ≡ none
IsEarliest t (some d) =
    ((h : ℕ) × (deadline_of t h ≡ some d)) × ((k e : ℕ) → deadline_of t k ≡ some e → d ≤ e)

no_deadline : (ds : List (ℕ × ℕ)) → Covers [] ds → (k : ℕ) → get k ds ≡ none
no_deadline ds c k = elim (Option-cases (get k ds)) [
  | inl e ↦ e
  | inr (f, e) ↦ absurd (cc (c k f e))
]

drop_stale_lem :
    (ds : List (ℕ × ℕ)) (heap : List Entry)
    → Sorted heap
    → Covers heap ds
    → IsValid (record { heap = drop_stale ds heap; deadlines = ds })
      × IsEarliest (record { heap = heap; deadlines = ds }) (peek (drop_stale ds heap))
unfolding drop_stale peek
drop_stale_lem ds [] s c = (record { sorted = tt; covers = c }, no_deadline ds c)
drop_stale_lem ds ((d, h) ∷ rest) s c = elim (Bool-cases (is_current_deadline ds h d)) [
  | inr stale ↦ rw stale (drop_stale_lem ds rest s.1 (stale-Covers ds d h rest stale c))
  | inl current ↦ rw current (
    record { sorted = s; covers = c },
    ((h, current_head ds d h current), λ k e g. ground (arith, c k e g, has-le d (e, k) rest s.0)),
  )
]

-- `next_deadline` tells the earliest of all deadlines, or that none is pending; it changes no
-- deadline and keeps the invariant.
pub next_deadline_lem :
    (t : TimerHeap)
    → IsValid t
    → let (t', next) = next_deadline t in
      IsEarliest t next × IsValid t' × ((k : ℕ) → deadline_of t' k ≡ deadline_of t k)
unfolding next_deadline
next_deadline_lem t v =
    let (valid, least) = drop_stale_lem t.deadlines t.heap v.sorted v.covers in
    (least, valid, λ k. refl)
