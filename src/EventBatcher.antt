-- ===== src/EventBatcher.antt =====
-- The batcher of src/event_loop.rs, which groups events for the application, over the sink of a
-- threadsafe function. The batches that the sink was given are kept in order, each with the status
-- of the call, which is a parameter: it may depend on the batch and on all those before it.
pub mod Order
mod Tests
use http.PendingWrite.{is_nil}
use http.Common.{◌+◌, length, ltb, ◌&&◌, not, ◌++◌, if◌then◌else◌, Bool, List, true, false, ◌∷◌, []}
use http.EventGauge.{max_batch_size}

-- What the sink's `match` tells apart in the status of a call of the threadsafe function: the
-- application gets the batch, the function is closing, or any other status, a failed call.
pub data Status : Type 0 where
  status_ok : Status
  status_closing : Status
  status_failed : Status

-- `emit` of `TsfnEventSink`: the loop stops only for a function that is closing. A batch whose call
-- failed otherwise is dropped, and the loop goes on.
unfoldable pub emit : Status → Bool
emit status_ok = true
emit status_closing = false
emit status_failed = true

pub record EventBatcher (E : Type 0) : Type 0 where
  pub batch : List E
  pub emitted : List (Status × List E)

-- `with_sink`
unfoldable pub with_sink : {E : Type 0} → EventBatcher E
with_sink = record { batch = []; emitted = [] }

module _ {E : Type 0} (call : List (Status × List E) → List E → Status) where
  -- `flush`: false if the sink asks the loop to stop.
  unfoldable pub flush : EventBatcher E → EventBatcher E × Bool
  flush b = if is_nil b.batch then (b, true) else (
    record { batch = []; emitted = b.emitted ++ ((call b.emitted b.batch, b.batch) ∷ []) },
    emit (call b.emitted b.batch),
  )

  abbrev pub append_after : List E → EventBatcher E × Bool → EventBatcher E × Bool
  append_after events (b, true) = (record b { batch = b.batch ++ events }, true)
  append_after events (b, false) = (b, false)

  unfoldable pub append_atomic : EventBatcher E → List E → EventBatcher E × Bool
  append_atomic b events =
      if is_nil events
      then (b, true)
      else if not (is_nil b.batch) && ltb max_batch_size (length b.batch + length events)
      then append_after events (flush b)
      else append_after events (b, true)

  -- `collect_atomic`, over what was collected for each turn, as long as the sink goes on.
  abbrev pub collect_all : EventBatcher E → List (List E) → EventBatcher E × Bool
  collect_all b [] = (b, true)
  collect_all b (events ∷ groups) =
      let (b', goes_on) = append_atomic b events in
      let rest = collect_all b' groups in if goes_on then rest else (b', false)
