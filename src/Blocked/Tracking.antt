-- ===== src/Blocked/Tracking.antt =====
-- The queue and the set of blocked streams agree, and what the poll does with them.
use http.Blocked.{poll_queue, unblocks, rounds, DrainEvent, without, untrack, track, Blocked}
use http.Common.{
  Option, Option-cases, append_assoc, suc, ==_iff, append-nil, ◌&&◌, sym, ◌∙◌, ◌==◌, ap, Bool-cases,
  not, ◌||◌, length, is_some, ◌++◌, ◌≡◌, if◌then◌else◌, elem, Result, List, inl, inr, none, some,
  true, false, refl, ℕ, ◌∷◌, [], arith,
}

-- No entry occurs twice.
abbrev pub Distinct : List ℕ → Type 0
Distinct [] = Unit {0}
Distinct (x ∷ xs) = (elem x xs ≡ false) × Distinct xs

-- The queue has every stream of the set, once, and no other.
pub record IsValid (b : Blocked) : Type 0 where
  pub distinct : Distinct b.queue
  pub agree : (k : ℕ) → elem k b.queue ≡ elem k b.set

pub elem-append : (k : ℕ) (xs ys : List ℕ) → elem k (xs ++ ys) ≡ (elem k xs || elem k ys)
elem-append k [] ys = refl
elem-append k (x ∷ xs) ys = ground (arith, elem-append k xs ys)

pub elem-without : (k id : ℕ) (xs : List ℕ) → elem k (without id xs) ≡ (not (k == id) && elem k xs)
elem-without k id [] = ground arith
elem-without k id (x ∷ xs) = ground (arith, elem-without k id xs)

without-Distinct : (id : ℕ) (xs : List ℕ) → Distinct xs → Distinct (without id xs)
without-Distinct id [] d = tt
without-Distinct id (x ∷ xs) d =
    ground (arith, without-Distinct id xs d.1, elem-without x id xs, d.0)

append-Distinct :
    (id : ℕ) (xs : List ℕ) → elem id xs ≡ false → Distinct xs → Distinct (xs ++ (id ∷ []))
append-Distinct id [] e d = (refl, tt)
append-Distinct id (x ∷ xs) e d =
    (ground (arith, elem-append x xs (id ∷ []), d.0, e), append-Distinct id xs (ground arith) d.1)

-- Tracking a stream keeps the two in step, and the stream is in the set afterwards.
pub track_lem :
    (b : Blocked) (id : ℕ) → IsValid b → IsValid (track b id) × (elem id (track b id).set ≡ true)
unfolding track
track_lem b id v = elim (Bool-cases (elem id b.set)) [
  | inl e ↦ rw e (v, e)
  | inr e ↦ rw e (
    record {
      distinct = append-Distinct id b.queue (v.agree id ∙ e) v.distinct;
      agree = λ k. ground (arith, elem-append k b.queue (id ∷ []), v.agree k);
    },
    ground arith,
  )
]

-- A stream that is not tracked any more is in neither, and all others are where they were.
pub untrack_lem :
    (b : Blocked) (id : ℕ)
    → IsValid b
    → IsValid (untrack b id)
      × ((k : ℕ) → elem k (untrack b id).queue ≡ (not (k == id) && elem k b.queue))
unfolding untrack
untrack_lem b id v = elim (Bool-cases (elem id b.set)) [
  | inl e ↦ rw e (
    record {
      distinct = without-Distinct id b.queue v.distinct;
      agree = λ k.
          elem-without k id b.queue
          ∙ ap (λ x. not (k == id) && x) (v.agree k)
          ∙ sym (elem-without k id b.set);
    },
    λ k. elem-without k id b.queue,
  )
  | inr e ↦ rw e (v, λ k. ground (arith, v.agree id, e, ==_iff k id, v.agree k))
]

module _ (stream_capacity : ℕ → Result ℕ ℕ) where
  -- The streams that stay blocked, in their order.
  abbrev pub still_blocked : List ℕ → List ℕ
  still_blocked [] = []
  still_blocked (id ∷ rest) =
      if is_some (unblocks stream_capacity id) then still_blocked rest else id ∷ still_blocked rest

  abbrev pub emit : Option DrainEvent → List DrainEvent → List DrainEvent
  emit none events = events
  emit (some event) events = event ∷ events

  same :
      (k id : ℕ)
      → (k == id) ≡ true
      → is_some (unblocks stream_capacity id) ≡ is_some (unblocks stream_capacity k)
  same k id e = ap (λ n. is_some (unblocks stream_capacity n)) (sym ((==_iff k id).0 e))

  -- The events of the others, in their order.
  abbrev pub unblocked : List ℕ → List DrainEvent
  unblocked [] = []
  unblocked (id ∷ rest) = emit (unblocks stream_capacity id) (unblocked rest)

  abbrev pub remaining_set : List ℕ → List ℕ → List ℕ
  remaining_set [] set = set
  remaining_set (id ∷ rest) set =
      remaining_set rest (if is_some (unblocks stream_capacity id) then without id set else set)

  -- What a run of the loop over `todo`, with `done` behind it, must give.
  abbrev Outcome : List ℕ → List ℕ → List ℕ → Blocked × List DrainEvent
  Outcome todo done set =
      (record { queue = done ++ still_blocked todo; set = remaining_set todo set }, unblocked todo)

  keep_round :
      (id n : ℕ) (queue set : List ℕ)
      → unblocks stream_capacity id ≡ none
      → rounds stream_capacity (suc n) (record { queue = id ∷ queue; set = set })
        ≡ rounds stream_capacity n (record { queue = queue ++ (id ∷ []); set = set })
  keep_round id n queue set e = rw e refl

  drop_round :
      (id n : ℕ) (queue set : List ℕ) (event : DrainEvent)
      → unblocks stream_capacity id ≡ some event
      → rounds stream_capacity (suc n) (record { queue = id ∷ queue; set = set }) ≡ (
          let (b, events) =
            rounds stream_capacity n (record { queue = queue; set = without id set }) in
          (b, event ∷ events))
  drop_round id n queue set event e = rw e refl

  keep-Outcome :
      (id : ℕ) (todo done set : List ℕ)
      → unblocks stream_capacity id ≡ none
      → Outcome todo (done ++ (id ∷ [])) set ≡ Outcome (id ∷ todo) done set
  keep-Outcome id todo done set e = rw e (
      ap (λ q. (record { queue = q; set = remaining_set todo set }, unblocked todo))
        (append_assoc done (id ∷ []) (still_blocked todo)))

  drop-Outcome :
      (id : ℕ) (todo done set : List ℕ) (event : DrainEvent)
      → unblocks stream_capacity id ≡ some event
      → (let (b, events) = Outcome todo done (without id set) in (b, event ∷ events))
        ≡ Outcome (id ∷ todo) done set
  drop-Outcome id todo done set event e = rw e refl

  rounds_lem :
      (todo done set : List ℕ)
      → rounds stream_capacity (length todo) (record { queue = todo ++ done; set = set })
        ≡ Outcome todo done set
  rounds_lem [] done set = ap (λ q. (record { queue = q; set = set }, [])) (sym (append-nil done))
  rounds_lem (id ∷ todo) done set = elim (Option-cases (unblocks stream_capacity id)) [
    | inl e ↦
        keep_round id (length todo) (todo ++ done) set e
        ∙ ap (λ q. rounds stream_capacity (length todo) (record { queue = q; set = set }))
            (append_assoc todo done (id ∷ []))
        ∙ rounds_lem todo (done ++ (id ∷ [])) set
        ∙ keep-Outcome id todo done set e
    | inr (event, e) ↦
        drop_round id (length todo) (todo ++ done) set event e
        ∙ ap (λ r. (r.0, event ∷ r.1)) (rounds_lem todo done (without id set))
        ∙ drop-Outcome id todo done set event e
  ]

  pub elem-still_blocked :
      (k : ℕ) (queue : List ℕ)
      → elem k (still_blocked queue) ≡ (elem k queue && not (is_some (unblocks stream_capacity k)))
  elem-still_blocked k [] = refl
  elem-still_blocked k (id ∷ rest) = elim (Bool-cases (is_some (unblocks stream_capacity id))) [
    | inl e ↦ rw e (ground (arith, e, same k id, elem-still_blocked k rest))
    | inr e ↦ rw e (ground (arith, e, same k id, elem-still_blocked k rest))
  ]

  elem-remaining_set :
      (k : ℕ) (queue set : List ℕ)
      → elem k (remaining_set queue set)
        ≡ (elem k set && not (elem k queue && is_some (unblocks stream_capacity k)))
  elem-remaining_set k [] set = ground arith
  elem-remaining_set k (id ∷ rest) set = elim (Bool-cases (is_some (unblocks stream_capacity id))) [
    | inl e ↦ rw e (
        ground
          (arith, e, same k id, elem-remaining_set k rest (without id set), elem-without k id set))
    | inr e ↦ rw e (ground (arith, e, same k id, elem-remaining_set k rest set))
  ]

  still_blocked-Distinct : (queue : List ℕ) → Distinct queue → Distinct (still_blocked queue)
  still_blocked-Distinct [] d = tt
  still_blocked-Distinct (id ∷ rest) d = elim (Bool-cases (is_some (unblocks stream_capacity id))) [
    | inl e ↦ rw e (still_blocked-Distinct rest d.1)
    | inr e ↦ rw e (elem-still_blocked id rest ∙ rw d.0 refl, still_blocked-Distinct rest d.1)
  ]

  -- After a poll, the queue is the streams that still have no capacity, in their order; each of the
  -- others has left the queue and the set and gets one event, in the order of the queue. The queue
  -- and the set stay in step.
  pub poll_queue_lem :
      (b : Blocked)
      → IsValid b
      → let (b', events) = poll_queue stream_capacity b in
        IsValid b' × (b'.queue ≡ still_blocked b.queue) × (events ≡ unblocked b.queue)
  unfolding poll_queue
  poll_queue_lem b v = rw (run) (
    record {
      distinct = still_blocked-Distinct b.queue v.distinct;
      agree = λ k.
          ground
            (arith, elem-still_blocked k b.queue, elem-remaining_set k b.queue b.set, v.agree k);
    },
    refl,
    refl,
  )
    where
      run : rounds stream_capacity (length b.queue) b ≡ Outcome b.queue [] b.set
      run =
          ap (λ q. rounds stream_capacity (length b.queue) (record { queue = q; set = b.set }))
            (sym (append-nil b.queue))
          ∙ rounds_lem b.queue [] b.set
