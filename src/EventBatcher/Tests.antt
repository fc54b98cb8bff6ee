-- ===== src/EventBatcher/Tests.antt =====
-- A sink that takes two batches, fails once, and closes.
use http.Common.{◌==◌, if◌then◌else◌, length, ltb, ◌++◌, ◌≡◌, replicate, List, true, ℕ, ◌∷◌, []}
use http.EventBatcher.{
  EventBatcher, append_atomic, collect_all, Status, status_ok, status_closing, status_failed,
}
use http.EventBatcher.Order.{
  append_atomic-Follows, Follows, collect_all_lem, stream, concat, received, AllOk,
}

abbrev two_then_close : List (Status × List ℕ) → List ℕ → Status
two_then_close emitted batch =
    if ltb (length emitted) 2
    then status_ok
    else if length emitted == 2
    then status_failed
    else status_closing

abbrev batcher : EventBatcher ℕ
batcher = record { batch = replicate 2000 0; emitted = [] }

append_atomic-Follows_example :
    Follows two_then_close batcher
      (replicate 49 1)
      (append_atomic two_then_close batcher (replicate 49 1))
append_atomic-Follows_example = append_atomic-Follows two_then_close batcher (replicate 49 1)

-- Each group that is not empty closes the batch before it.
abbrev groups : List (List ℕ)
groups = replicate 49 1 ∷ [] ∷ replicate 2040 2 ∷ replicate 2040 3 ∷ []

collect_all_lem_example :
    let (b', goes_on) = collect_all two_then_close batcher groups in
    (taken : List (List ℕ)) × (others : List (List ℕ)) × (groups ≡ taken ++ others)
    × (goes_on ≡ true → others ≡ [])
    × (stream b' ≡ stream batcher ++ concat taken)
    × (AllOk b'.emitted → received b'.emitted ++ b'.batch ≡ stream batcher ++ concat taken)
collect_all_lem_example = collect_all_lem two_then_close batcher groups
