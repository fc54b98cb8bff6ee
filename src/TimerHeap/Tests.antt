-- ===== src/TimerHeap/Tests.antt =====
-- Deadlines at a concrete heap: handle 1 was rescheduled, so that a stale entry is in front.
use http.TimerHeap.Next.{next_deadline_lem, IsEarliest}
use http.TimerHeap.Expiry.{pop_expired_lem, Popped}
use http.TimerHeap.Valid.{set_deadline_lem, new-IsValid, deadline_of, schedule-IsValid, IsValid}
use http.TimerHeap.{new, set_deadline, pop_expired, schedule, next_deadline, TimerHeap}
use http.Common.{◌==◌, if◌then◌else◌, ◌≡◌, none, ℕ}

abbrev heap : TimerHeap
heap = schedule (schedule (schedule new 1 10) 2 20) 1 30

heap-IsValid : IsValid heap
heap-IsValid =
    schedule-IsValid (schedule (schedule new 1 10) 2 20) 1 30
      (schedule-IsValid (schedule new 1 10) 2 20 (schedule-IsValid new 1 10 new-IsValid))

pop_expired_lem_example : Popped 25 heap.deadlines (pop_expired heap 25)
pop_expired_lem_example = pop_expired_lem heap 25 heap-IsValid

next_deadline_lem_example :
    let (t', next) = next_deadline heap in
    IsEarliest heap next × IsValid t' × ((k : ℕ) → deadline_of t' k ≡ deadline_of heap k)
next_deadline_lem_example = next_deadline_lem heap heap-IsValid

set_deadline_lem_example :
    IsValid (set_deadline heap 2 none)
    × ((k : ℕ)
        → deadline_of (set_deadline heap 2 none) k ≡ (if k == 2 then none else deadline_of heap k))
set_deadline_lem_example = set_deadline_lem heap 2 none heap-IsValid
