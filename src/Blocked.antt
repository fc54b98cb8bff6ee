-- ===== src/Blocked.antt =====
-- Streams that wait for capacity: the `blocked_queue` and `blocked_set` of src/quic_connection.rs and
-- src/connection.rs, which both connections keep in the same way.
pub mod Tracking
mod Tests
use http.Common.{
  ltb, ok, err, ◌++◌, length, Option, elem, ◌==◌, Result, if◌then◌else◌, List, none, some, ℕ, ◌∷◌,
  [], zero, suc,
}

-- The set is the list of its elements.
pub record Blocked : Type 0 where
  pub queue : List ℕ
  pub set : List ℕ

-- `HashSet::remove` of `set`, and `retain(|&id| id != k)` of the queue.
abbrev pub without : ℕ → List ℕ → List ℕ
without k [] = []
without k (x ∷ xs) = let rest = without k xs in if k == x then rest else x ∷ rest

-- `if blocked_set.insert(id) { blocked_queue.push_back(id) }`
unfoldable pub track : Blocked → ℕ → Blocked
track b id = if elem id b.set then b else record { queue = b.queue ++ (id ∷ []); set = id ∷ b.set }

-- `if blocked_set.remove(&id) { blocked_queue.retain(|&k| k != id) }`
unfoldable pub untrack : Blocked → ℕ → Blocked
untrack b id =
    if elem id b.set then record { queue = without id b.queue; set = without id b.set } else b

-- What the poll tells the application of a stream that it takes out of the queue.
pub data DrainEvent : Type 0 where
  drained : ℕ → DrainEvent
  failed : ℕ → DrainEvent

-- The event for a stream, if it has capacity or its query fails.
abbrev pub unblocked_by : ℕ → Result ℕ ℕ → Option DrainEvent
unblocked_by id (err e) = some (failed id)
unblocked_by id (ok capacity) = if ltb 0 capacity then some (drained id) else none

module _ (stream_capacity : ℕ → Result ℕ ℕ) where
  abbrev pub unblocks : ℕ → Option DrainEvent
  unblocks id = unblocked_by id (stream_capacity id)

  -- One round: the front leaves the queue, or goes to its back.
  abbrev pub round :
      ℕ
      → Blocked
      → (Blocked → Blocked × List DrainEvent)
      → Option DrainEvent
      → Blocked × List DrainEvent
  round id b go none = go (record b { queue = b.queue ++ (id ∷ []) })
  round id b go (some e) =
      let (b', events) = go (record b { set = without id b.set }) in (b', e ∷ events)

  -- The loop of `poll_drain_events` over as many rounds as the queue has entries.
  abbrev pub rounds : ℕ → Blocked → Blocked × List DrainEvent
  rounds zero b = (b, [])
  rounds (suc n) b = elim b.queue [
    | [] ↦ (b, [])
    | id ∷ rest ↦ round id (record b { queue = rest }) (rounds n) (unblocks id)
  ]

  unfoldable pub poll_queue : Blocked → Blocked × List DrainEvent
  poll_queue b = rounds (length b.queue) b
