-- ===== src/Admission/Gate.antt =====
-- src/outbound_admission.rs: the write-admission window shared by the threads that write and the
-- worker that releases. Each atomic access of `try_admit` and `release` is one step; threads are
-- interleaved in any order, and the memory is sequentially consistent.
pub mod Wakeup
pub mod Limit
pub mod Buffered
pub mod Release
mod Tests
use http.Common.{ℕ, List, [], ◌∷◌, Bool, true, false, leb, ◌==◌, if◌then◌else◌}
use http.Admission.{
  AdmissionWatermarks, AdmitOutcome, admitted, backpressured, admit_next, release_next,
  release_emits_write_ready,
}

-- The two atomics of `OutboundAdmission`; the marks are fixed.
pub record Gate : Type 0 where
  pub queued : ℕ
  pub pressured : Bool

-- Where a thread stands in `try_admit` or `release`: the access that it makes next.
pub data Pc : Type 0 where
  idle : Pc
  admit_load : ℕ → Pc
  admit_cas : ℕ → ℕ → ℕ → Pc
  admit_flag : ℕ → Pc
  admit_reload : ℕ → Pc
  release_load : ℕ → Pc
  release_cas : ℕ → ℕ → ℕ → Pc
  release_swap : ℕ → Pc

-- What a step returns to the caller, if it ends the call.
pub data Reply : Type 0 where
  running : Reply
  admits : Bool → Reply
  releases : Bool → Reply

-- A step's outcome: the atomics, the thread's new place, the reply.
abbrev pub Outcome : Type 0
Outcome = Gate × Pc × Reply

-- Entry of `try_admit`: zero units pass at once.
unfoldable pub begin_admit : ℕ → Pc × Reply
begin_admit units = if units == 0 then (idle, admits true) else (admit_load units, running)

-- Entry of `release`: zero units are ignored.
unfoldable pub begin_release : ℕ → Pc × Reply
begin_release units = if units == 0 then (idle, releases false) else (release_load units, running)

after_load : Gate → ℕ → AdmitOutcome → Outcome
after_load g units (admitted next_queued) = (g, admit_cas units g.queued next_queued, running)
after_load g units backpressured = (g, admit_flag units, running)

after_reload : Gate → ℕ → AdmitOutcome → Outcome
after_reload g units (admitted next_queued) = (g, admit_load units, running)
after_reload g units backpressured = (g, idle, admits false)

-- The end of `release`: the flag is swapped only at or below the low mark.
after_release : AdmissionWatermarks → Gate → ℕ → Outcome
after_release m g next =
    if leb next m.low
    then (
      record g { pressured = false },
      idle,
      releases (release_emits_write_ready next m.low g.pressured),
    )
    else (g, idle, releases (release_emits_write_ready next m.low false))

-- One atomic access of a thread inside a call.
unfoldable pub advance : AdmissionWatermarks → Gate → Pc → Outcome
unfolding after_load after_reload after_release
advance m g idle = (g, idle, running)
advance m g (admit_load units) = after_load g units (admit_next g.queued units m.high)
advance m g (admit_cas units current next) =
    if g.queued == current
    then (record g { queued = next }, idle, admits true)
    else (g, admit_load units, running)
advance m g (admit_flag units) = (record g { pressured = true }, admit_reload units, running)
advance m g (admit_reload units) = after_reload g units (admit_next g.queued units m.high)
advance m g (release_load units) =
    (g, release_cas units g.queued (release_next g.queued units), running)
advance m g (release_cas units current next) =
    if g.queued == current
    then (record g { queued = next }, release_swap next, running)
    else (g, release_load units, running)
advance m g (release_swap next) = after_release m g next

-- All threads; `owed` is a ghost: a writer has announced itself by the flag, and no release has
-- asked for a write-ready event since.
pub record World : Type 0 where
  pub gate : Gate
  pub pcs : ℕ → Pc
  pub owed : Bool

pub data Action : Type 0 where
  admit : ℕ → Action
  release : ℕ → Action
  go : Action

-- `OutboundAdmission::new`: nothing queued, no pressure.
pub init : World
init = record { gate = record { queued = 0; pressured = false }; pcs = λ _. idle; owed = false }

abbrev pub put : (ℕ → Pc) → ℕ → Pc → ℕ → Pc
put pcs t pc s = if s == t then pc else pcs s

-- A thread inside a call begins no other.
start : Pc → Pc → Pc
start idle pc = pc
start busy pc = busy

owes : Pc → Reply → Bool → Bool
owes (admit_flag units) r b = true
owes _ (releases true) b = false
owes _ _ b = b

unfoldable pub settle : World → ℕ → Outcome → World
unfolding owes
settle w t (g, pc, r) = record { gate = g; pcs = put w.pcs t pc; owed = owes (w.pcs t) r w.owed }

pub step : AdmissionWatermarks → World → ℕ × Action → World
unfolding start
step m w (t, admit units) = record w { pcs = put w.pcs t (start (w.pcs t) (begin_admit units).0) }
step m w (t, release units) = record w {
  pcs = put w.pcs t (start (w.pcs t) (begin_release units).0);
}
step m w (t, go) = settle w t (advance m w.gate (w.pcs t))

-- A schedule: which thread moves, and what it does.
pub run : AdmissionWatermarks → World → List (ℕ × Action) → World
run m w [] = w
run m w (a ∷ rest) = run m (step m w a) rest

-- A release with no other thread in between: zero units are ignored, else its three accesses.
unfoldable pub release_alone : AdmissionWatermarks → Gate → ℕ → Outcome
unfolding advance
release_alone m g units =
    if units == 0
    then (g, idle, releases false)
    else (let (g1, pc1, r1) = advance m g (release_load units) in
        let (g2, pc2, r2) = advance m g1 pc1 in advance m g2 pc2)
