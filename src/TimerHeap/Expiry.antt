-- ===== src/TimerHeap/Expiry.antt =====
-- What expires, and when, in src/timer_heap.rs.
use http.TimerHeap.Entries.{has-le, get-erase, Sorted}
use http.TimerHeap.Valid.{deadline_of, IsValid, Covers}
use http.TimerHeap.{pop_expired, erase, get, TimerHeap, Entry, pop_loop, is_current_deadline}
use http.Common.{
  ap, sym, ◌≤◌, true, ◌∙◌, inl, inr, none, some, false, refl, ltb→lt, leb, ltb, Option-cases,
  if◌then◌else◌, arith, [], Bool-cases, ◌<◌, ◌≡◌, elem, ◌∷◌, Bool, List, ℕ,
}

-- Whether the deadline of a handle has come.
abbrev pub due : ℕ → List (ℕ × ℕ) → ℕ → Bool
due now ds k = elim (get k ds) [ none ↦ false | some d ↦ leb d now ]

-- No handle twice.
abbrev pub Distinct : List ℕ → Type 0
Distinct [] = Unit {0}
Distinct (h ∷ hs) = (elem h hs ≡ false) × Distinct hs

pub stale-Covers :
    (ds : List (ℕ × ℕ)) (d h : ℕ) (rest : List Entry)
    → is_current_deadline ds h d ≡ false
    → Covers ((d, h) ∷ rest) ds
    → Covers rest ds
unfolding is_current_deadline
stale-Covers ds d h rest e c k f g = ground (arith, c k f g, e, g)

erase-Covers :
    (ds : List (ℕ × ℕ)) (d h : ℕ) (rest : List Entry)
    → Covers ((d, h) ∷ rest) ds
    → Covers rest (erase h ds)
erase-Covers ds d h rest c k f g = ground (arith, get-erase k h ds, c k f, g)

-- The handles stand in the order of their deadlines.
abbrev pub Ordered : List (ℕ × ℕ) → List ℕ → Type 0
Ordered ds [] = Unit {0}
Ordered ds (h ∷ hs) =
    ((j d e : ℕ) → elem j hs ≡ true → get h ds ≡ some d → get j ds ≡ some e → d ≤ e) × Ordered ds hs

elem_ne : (j h : ℕ) (hs : List ℕ) → elem j hs ≡ true → elem h hs ≡ false → j ≡ h → ⊥
elem_ne j h hs i n e = absurd (cc (sym i ∙ ap (λ a. elem a hs) e ∙ n))

Ordered-erase :
    (ds : List (ℕ × ℕ)) (h : ℕ) (hs : List ℕ)
    → elem h hs ≡ false
    → Ordered (erase h ds) hs
    → Ordered ds hs
Ordered-erase ds h [] n o = tt
Ordered-erase ds h (x ∷ hs) n o = (
  λ j d e i g k.
      ground (arith, o.0 j d e i, get-erase x h ds, get-erase j h ds, elem_ne j h hs i, n, g, k),
  Ordered-erase ds h hs (ground arith) o.1,
)

pub current_head :
    (ds : List (ℕ × ℕ)) (d h : ℕ) → is_current_deadline ds h d ≡ true → get h ds ≡ some d
unfolding is_current_deadline
current_head ds d h e = ground arith

-- What `pop_expired` leaves and returns: the due handles lose their deadlines and the others keep
-- them; exactly the due handles come out, each once, in the order of their deadlines.
pub record Popped (now : ℕ) (ds : List (ℕ × ℕ)) (r : TimerHeap × List ℕ) : Type 0 where
  pub valid : IsValid r.0
  pub left : (k : ℕ) → deadline_of r.0 k ≡ (if due now ds k then none else get k ds)
  pub out : (k : ℕ) → elem k r.1 ≡ due now ds k
  pub distinct : Distinct r.1
  pub ordered : Ordered ds r.1

early :
    (now d h : ℕ) (rest : List Entry) (ds : List (ℕ × ℕ))
    → now < d
    → Sorted ((d, h) ∷ rest)
    → Covers ((d, h) ∷ rest) ds
    → (k : ℕ) → due now ds k ≡ false
early now d h rest ds lt s c k = elim (Option-cases (get k ds)) [
  | inl e ↦ rw (e, due)
  | inr (f, e) ↦ rw (e, due) (ground (arith, c k f e, has-le d (f, k) rest s.0))
]

due_nothing : (now : ℕ) (ds : List (ℕ × ℕ)) → Covers [] ds → (k : ℕ) → due now ds k ≡ false
due_nothing now ds c k = elim (Option-cases (get k ds)) [
  | inl e ↦ rw (e, due)
  | inr (f, e) ↦ absurd (cc (c k f e))
]

pop_loop-Popped :
    (now : ℕ) (heap : List Entry) (ds : List (ℕ × ℕ))
    → Sorted heap
    → Covers heap ds
    → Popped now ds (pop_loop now heap ds)
unfolding pop_loop is_current_deadline
pop_loop-Popped now [] ds s c = record {
  valid = record { sorted = s; covers = c };
  left = λ k. rw (due_nothing now ds c k) refl;
  out = λ k. rw (due_nothing now ds c k) refl;
  distinct = tt;
  ordered = tt;
}
pop_loop-Popped now ((d, h) ∷ rest) ds s c = elim (Bool-cases (is_current_deadline ds h d)) [
  | inr stale ↦ rw stale (pop_loop-Popped now rest ds s.1 (stale-Covers ds d h rest stale c))
  | inl current ↦ elim (Bool-cases (ltb now d)) [
    | inl later ↦
        rw (current, later)
          (record {
            valid = record { sorted = s; covers = c };
            left = λ k. rw (early now d h rest ds (ltb→lt now d later) s c k) refl;
            out = λ k. rw (early now d h rest ds (ltb→lt now d later) s c k) refl;
            distinct = tt;
            ordered = tt;
          })
    | inr now_due ↦
        let p = pop_loop-Popped now rest (erase h ds) s.1 (erase-Covers ds d h rest c) in
        let gone : elem h (pop_loop now rest (erase h ds)).1 ≡ false =
          p.out h ∙ rw (get-erase h h ds, due) (ground arith) in
        rw (current, now_due)
          (record {
            valid = p.valid;
            left = λ k. ground (arith, p.left k, get-erase k h ds, current, now_due);
            out = λ k. ground (arith, p.out k, get-erase k h ds, current, now_due);
            distinct = (gone, p.distinct);
            ordered = (
              (λ j f e i g k.
                  ground
                    (arith, g, current_head ds d h current, c j e k, has-le d (e, j) rest s.0)),
              Ordered-erase ds h _ gone p.ordered,
            );
          })
  ]
]

-- `pop_expired` hands out exactly the handles whose deadline has come, each once and in the order of
-- the deadlines; they lose their deadline, all others keep theirs, and the invariant is kept.
pub pop_expired_lem :
    (t : TimerHeap) (now : ℕ) → IsValid t → Popped now t.deadlines (pop_expired t now)
unfolding pop_expired
pop_expired_lem t now v = pop_loop-Popped now t.heap t.deadlines v.sorted v.covers
