-- ===== src/Admission/Gate/Buffered.antt =====
-- The window of src/outbound_admission.rs on a machine with store buffers. `try_admit` raises the
-- flag by a plain `Release` store and re-reads the queue by an `Acquire` load: the load may be
-- served while the store still waits in the thread's buffer. A compare-exchange or a swap empties
-- the buffer of its thread first.
use http.Admission.Bounds.{watermarks-ordered}
use http.Admission.{
  AdmissionWatermarks, backpressured, admitted, release_emits_write_ready, release_next, admit_next,
  watermarks,
}
use http.Common.{
  refl, leb, arith, ◌≡◌, usize_mod, [], ◌≤◌, ◌∷◌, false, ◌==◌, ◌<◌, List, if◌then◌else◌, true, Bool,
  ℕ,
}
use http.Admission.Gate.{
  running, release_load, admit_load, begin_release, begin_admit, advance, release_swap, settle,
  release_cas, idle, admit_cas, admit_reload, release, put, go, step, admit_flag, admit, Pc, init,
  Action, World,
}

-- `buffered t`: the flag store of thread `t` has not reached the memory.
pub record Machine : Type 0 where
  pub world : World
  pub buffered : ℕ → Bool

pub data Move : Type 0 where
  call : Action → Move
  flush : Move

abbrev pub mark : (ℕ → Bool) → ℕ → Bool → ℕ → Bool
mark f t b s = if s == t then b else f s

raise : World → World
raise w = record w { gate = record { queued = w.gate.queued; pressured = true } }

pub drain : Machine → ℕ → Machine
unfolding raise
drain c t =
    if c.buffered t then record { world = raise c.world; buffered = mark c.buffered t false } else c

-- The flag store goes to the buffer; all else is as on the plain memory.
go_buffered : AdmissionWatermarks → Machine → ℕ → Pc → Machine
unfolding drain
go_buffered m c t (admit_flag units) = record {
  world = record c.world { pcs = put c.world.pcs t (admit_reload units) };
  buffered = mark c.buffered t true;
}
go_buffered m c t (admit_cas u cur n) = record {
  world = step m (drain c t).world (t, go);
  buffered = (drain c t).buffered;
}
go_buffered m c t (release_cas u cur n) = record {
  world = step m (drain c t).world (t, go);
  buffered = (drain c t).buffered;
}
go_buffered m c t (release_swap n) = record {
  world = step m (drain c t).world (t, go);
  buffered = (drain c t).buffered;
}
go_buffered m c t _ = record { world = step m c.world (t, go); buffered = c.buffered }

pub move : AdmissionWatermarks → Machine → ℕ × Move → Machine
unfolding go_buffered
move m c (t, flush) = drain c t
move m c (t, call go) = go_buffered m c t (c.world.pcs t)
move m c (t, call (admit u)) = record { world = step m c.world (t, admit u); buffered = c.buffered }
move m c (t, call (release u)) = record {
  world = step m c.world (t, release u);
  buffered = c.buffered;
}

pub moves : AdmissionWatermarks → Machine → List (ℕ × Move) → Machine
moves m c [] = c
moves m c (a ∷ rest) = moves m (move m c a) rest

abbrev pub cold : Machine
cold = record { world = init; buffered = λ t. false }

-- Thread 1 fills the window; thread 0 is refused while its flag store is buffered; thread 1
-- releases everything; then the store lands.
abbrev pub race : ℕ → ℕ → List (ℕ × Move)
race full units =
    (1, call (admit full))
    ∷ (1, call go)
    ∷ (1, call go)
    ∷ (0, call (admit units))
    ∷ (0, call go)
    ∷ (0, call go)
    ∷ (0, call go)
    ∷ (1, call (release full))
    ∷ (1, call go)
    ∷ (1, call go)
    ∷ (1, call go)
    ∷ (0, flush)
    ∷ []

begin_admit-pos : (u : ℕ) → 0 < u → begin_admit u ≡ (admit_load u, running)
unfolding begin_admit
begin_admit-pos u h = ground arith

begin_release-pos : (u : ℕ) → 0 < u → begin_release u ≡ (release_load u, running)
unfolding begin_release
begin_release-pos u h = ground arith

admit_next-fills : (high : ℕ) → high < usize_mod → admit_next 0 high high ≡ admitted high
unfolding admit_next
admit_next-fills high h = ground arith

admit_next-refuses : (high u : ℕ) → 0 < u → u ≤ high → admit_next high u high ≡ backpressured
unfolding admit_next
admit_next-refuses high u h k = ground arith

release_next-all : (n : ℕ) → release_next n n ≡ 0
unfolding release_next
release_next-all n = omega arith

eq_self : (n : ℕ) → (n == n) ≡ true
eq_self n = ground arith

low_zero : (n : ℕ) → leb 0 n ≡ true
low_zero n = ground arith

-- With store buffers a wake-up can be lost: for all marks and every write of 1 to `high` units, the
-- schedule `race` ends with all threads outside the calls, all buffers empty and nothing queued,
-- while the flag that the refused writer raised is still up.
pub wakeup_lost_when_buffered :
    (high low units : ℕ)
    → 0 < units
    → units ≤ (watermarks high low).high
    → (watermarks high low).high < usize_mod
    → let c = moves (watermarks high low) cold (race (watermarks high low).high units) in
      ((t : ℕ) → c.world.pcs t ≡ idle)
      × ((t : ℕ) → c.buffered t ≡ false)
      × (c.world.gate.pressured ≡ true)
      × (c.world.gate.queued ≡ 0)
unfolding moves move step settle advance init release_emits_write_ready
wakeup_lost_when_buffered high low units h0 h1 h2 =
    simp
      (
        begin_admit-pos _ h0,
        begin_admit-pos _ (watermarks-ordered high low).0,
        begin_release-pos _ (watermarks-ordered high low).0,
        admit_next-fills _ h2,
        admit_next-refuses _ units h0 h1,
        release_next-all,
        eq_self,
        low_zero,
      )
      (λ t. ground arith, λ t. ground arith, refl, refl)
