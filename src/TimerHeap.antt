-- ===== src/TimerHeap.antt =====
-- src/timer_heap.rs: the deadlines of the connections, with lazy removal. An `Instant` is a number.
-- The binary heap of `Reverse((deadline, handle))` is the sorted list of its entries: `peek` is the
-- head, `pop` the tail, `push` a sorted insertion. The hash map is an association list with one
-- entry for each handle.
pub mod Entries
pub mod Valid
pub mod Expiry
pub mod Next
mod Tests
use http.Common.{
  ◌+◌, length, ◌&&◌, not, saturating_mul, false, ◌==◌, ◌||◌, some, none, ◌∷◌, ltb, Option,
  if◌then◌else◌, [], List, Bool, ℕ,
}

abbrev pub Entry : Type 0
Entry = ℕ × ℕ

-- The order of `(Instant, usize)`.
abbrev pub before : Entry → Entry → Bool
before (d, h) (e, k) = ltb d e || ((d == e) && ltb h k)

unfoldable pub push : Entry → List Entry → List Entry
push x [] = x ∷ []
push x (y ∷ ys) = if before y x then y ∷ push x ys else x ∷ y ∷ ys

-- `HashMap::get`, `remove` and `insert` of `deadlines`.
unfoldable pub get : ℕ → List (ℕ × ℕ) → Option ℕ
get k [] = none
get k ((h, d) ∷ ds) = if k == h then some d else get k ds

unfoldable pub erase : ℕ → List (ℕ × ℕ) → List (ℕ × ℕ)
erase k [] = []
erase k ((h, d) ∷ ds) = if k == h then erase k ds else (h, d) ∷ erase k ds

unfoldable pub insert : ℕ → ℕ → List (ℕ × ℕ) → List (ℕ × ℕ)
unfolding erase
insert k d ds = (k, d) ∷ erase k ds

pub record TimerHeap : Type 0 where
  pub heap : List Entry
  pub deadlines : List (ℕ × ℕ)

unfoldable pub new : TimerHeap
new = record { heap = []; deadlines = [] }

unfoldable pub is_current_deadline : List (ℕ × ℕ) → ℕ → ℕ → Bool
is_current_deadline ds handle deadline = elim (get handle ds) [
  | none ↦ false
  | some current ↦ current == deadline
]

-- The loop of `compact` over the old entries.
unfoldable pub repush : List (ℕ × ℕ) → List Entry → List Entry → List Entry
repush ds [] acc = acc
repush ds ((d, h) ∷ rest) acc =
    repush ds rest (if is_current_deadline ds h d then push (d, h) acc else acc)

unfoldable pub compact : TimerHeap → TimerHeap
compact t = record t { heap = repush t.deadlines t.heap [] }

unfoldable pub maybe_compact : TimerHeap → TimerHeap
maybe_compact t =
    if ltb (saturating_mul (length t.deadlines) 4 + 32) (length t.heap) then compact t else t

unfoldable pub schedule : TimerHeap → ℕ → ℕ → TimerHeap
schedule t handle deadline = maybe_compact (record {
  heap = push (deadline, handle) t.heap;
  deadlines = insert handle deadline t.deadlines;
})

unfoldable pub remove_connection : TimerHeap → ℕ → TimerHeap
remove_connection t handle = maybe_compact (record t { deadlines = erase handle t.deadlines })

unfoldable pub set_deadline : TimerHeap → ℕ → Option ℕ → TimerHeap
set_deadline t handle none = remove_connection t handle
set_deadline t handle (some deadline) = schedule t handle deadline

-- The loop of `next_deadline`: stale entries at the front are dropped.
unfoldable pub drop_stale : List (ℕ × ℕ) → List Entry → List Entry
drop_stale ds [] = []
drop_stale ds ((d, h) ∷ rest) =
    let later = drop_stale ds rest in
    if not (is_current_deadline ds h d) then later else (d, h) ∷ rest

unfoldable pub peek : List Entry → Option ℕ
peek [] = none
peek ((d, h) ∷ rest) = some d

unfoldable pub next_deadline : TimerHeap → TimerHeap × Option ℕ
next_deadline t = let heap = drop_stale t.deadlines t.heap in (record t { heap = heap }, peek heap)

-- `expired.push(handle)`, ahead of what the later rounds push.
abbrev pub expire : ℕ → TimerHeap × List ℕ → TimerHeap × List ℕ
expire handle (t, expired) = (t, handle ∷ expired)

-- The loop of `pop_expired`: the heap and the deadlines that are left, and the expired handles.
unfoldable pub pop_loop : ℕ → List Entry → List (ℕ × ℕ) → TimerHeap × List ℕ
pop_loop now [] ds = (record { heap = []; deadlines = ds }, [])
pop_loop now ((d, h) ∷ rest) ds =
    let skip = pop_loop now rest ds in
    let pop = expire h (pop_loop now rest (erase h ds)) in
    if not (is_current_deadline ds h d)
    then skip
    else if ltb now d
    then (record { heap = (d, h) ∷ rest; deadlines = ds }, [])
    else pop

unfoldable pub pop_expired : TimerHeap → ℕ → TimerHeap × List ℕ
pop_expired t now = pop_loop now t.heap t.deadlines
