-- ===== src/Blocked/Tests.antt =====
-- A poll of three blocked streams, of which one has capacity and one fails.
use http.Common.{Result, ◌==◌, if◌then◌else◌, ◌≡◌, refl, ℕ, ◌∷◌, [], ok, err, arith}
use http.Blocked.{Blocked, poll_queue}
use http.Blocked.Tracking.{IsValid, poll_queue_lem, still_blocked, unblocked}

abbrev capacity : ℕ → Result ℕ ℕ
capacity id = if id == 4 then ok 0 else if id == 8 then err 7 else ok 5

abbrev waiting : Blocked
waiting = record { queue = 4 ∷ 8 ∷ 12 ∷ []; set = 12 ∷ 8 ∷ 4 ∷ [] }

waiting-IsValid : IsValid waiting
waiting-IsValid = record { distinct = (refl, (refl, (refl, tt))); agree = λ k. ground arith }

poll_queue_lem_example :
    let (b', events) = poll_queue capacity waiting in
    IsValid b'
    × (b'.queue ≡ still_blocked capacity waiting.queue)
    × (events ≡ unblocked capacity waiting.queue)
poll_queue_lem_example = poll_queue_lem capacity waiting waiting-IsValid
