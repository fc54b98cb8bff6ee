-- ===== src/Admission/Gate/Wakeup.antt =====
-- No wake-up is lost under sequential consistency.
use http.Common.{
  [], ◌∙◌, sym, dec_lt, ◌∷◌, dec_le, refl, ==_iff, subst, ◌+◌, Bool, ◌==◌, All, Bool-cases, List, ℕ,
  ◌≤◌, ◌<◌, ◌≡◌, true, arith, ◌⊎◌, inl, inr, usize_mod,
}
use http.Admission.{watermarks, release_next, release_emits_write_ready, AdmissionWatermarks}
use http.Admission.Bounds.{admit_next-Explains}
use http.Admission.Gate.{
  go, release, admit, releases, begin_release, release_alone, run, step, begin_admit, settle, owes,
  start, put, init, World, Action, Gate, Pc, idle, admit_load, admit_cas, admit_flag, admit_reload,
  release_load, release_cas, release_swap, advance,
}

-- A thread that will look at the queue or at the flag again before its call ends.
abbrev pub Active : ℕ → Pc → Type 0
Active low idle = ⊥
Active low (admit_load u) = Unit {0}
Active low (admit_cas u c n) = Unit {0}
Active low (admit_flag u) = Unit {0}
Active low (admit_reload u) = Unit {0}
Active low (release_load u) = ⊥
Active low (release_cas u c n) = ⊥
Active low (release_swap n) = n ≤ low

-- Units in flight are positive and fit a word.
abbrev pub Fine : Pc → Type 0
Fine idle = Unit {0}
Fine (admit_load u) = (0 < u) × (u < usize_mod)
Fine (admit_cas u c n) = (0 < u) × (u < usize_mod) × (0 < n)
Fine (admit_flag u) = (0 < u) × (u < usize_mod)
Fine (admit_reload u) = (0 < u) × (u < usize_mod)
Fine (release_load u) = Unit {0}
Fine (release_cas u c n) = Unit {0}
Fine (release_swap n) = Unit {0}

-- The flag is up over an empty queue.
abbrev Alarm : Gate → Type 0
Alarm g = (g.pressured ≡ true) × (g.queued ≡ 0)

advance-Fine : (m : AdmissionWatermarks) (g : Gate) (pc : Pc) → Fine pc → Fine (advance m g pc).1
unfolding advance
advance-Fine m g idle f = f
advance-Fine m g (admit_load u) f = ground (arith, admit_next-Explains g.queued u m.high)
advance-Fine m g (admit_cas u c n) f = ground arith
advance-Fine m g (admit_flag u) f = f
advance-Fine m g (admit_reload u) f = ground arith
advance-Fine m g (release_load u) f = tt
advance-Fine m g (release_cas u c n) f = ground arith
advance-Fine m g (release_swap n) f = ground arith

-- After a step with the alarm on, the thread is active, or it was not before and the alarm was on.
advance-Active :
    (m : AdmissionWatermarks) (g : Gate) (pc : Pc)
    → Fine pc
    → Alarm (advance m g pc).0
    → Active m.low (advance m g pc).1 ⊎ (¬ Active m.low pc × Alarm g)
unfolding advance
advance-Active m g idle f a = inr ((λ h. h), a)
advance-Active m g (admit_load u) f a = ground arith
advance-Active m g (admit_cas u c n) f a = ground arith
advance-Active m g (admit_flag u) f a = inl tt
advance-Active m g (admit_reload u) f a = ground (arith, admit_next-Explains g.queued u m.high)
advance-Active m g (release_load u) f a = inr ((λ h. h), a)
advance-Active m g (release_cas u c n) f a = ground arith
advance-Active m g (release_swap n) f a = ground arith

-- The units of a call fit a machine word.
abbrev pub Fits : ℕ × Action → Type 0
Fits (t, admit u) = u < usize_mod
Fits (t, release u) = u < usize_mod
Fits (t, go) = Unit {0}

pub record Inv (m : AdmissionWatermarks) (w : World) : Type 0 where
  pub fine : (t : ℕ) → Fine (w.pcs t)
  pub alarmed : Alarm w.gate → (t : ℕ) × Active m.low (w.pcs t)
  pub owed_flag : w.owed ≡ w.gate.pressured

init-Inv : (m : AdmissionWatermarks) → Inv m init
unfolding init
init-Inv m = record { fine = λ t. tt; alarmed = λ a. cc a.0; owed_flag = refl }

put_self : (pcs : ℕ → Pc) (t : ℕ) (pc : Pc) → put pcs t pc t ≡ pc
put_self pcs t pc = ground arith

put-Fine :
    (pcs : ℕ → Pc) (t : ℕ) (pc : Pc)
    → ((s : ℕ) → Fine (pcs s))
    → Fine pc
    → (s : ℕ) → Fine (put pcs t pc s)
put-Fine pcs t pc all one s = elim (Bool-cases (s == t)) [ inl e ↦ rw e one | inr e ↦ rw e (all s) ]

-- A thread that stays active keeps its place when another one moves.
put-Active :
    (low : ℕ) (pcs : ℕ → Pc) (t : ℕ) (pc : Pc)
    → Active low pc ⊎ (¬ Active low (pcs t) × ((s : ℕ) × Active low (pcs s)))
    → (s : ℕ) × Active low (put pcs t pc s)
put-Active low pcs t pc (inl a) = (t, rw (put_self pcs t pc) a)
put-Active low pcs t pc (inr (n, (s, a))) = elim (Bool-cases (s == t)) [
  | inl e ↦ absurd (n (subst (λ k. Active low (pcs k)) ((==_iff s t).0 e) a))
  | inr e ↦ (s, rw e a)
]

start-Fine : (pc new : Pc) → Fine pc → Fine new → Fine (start pc new)
unfolding start
start-Fine idle new f h = h
start-Fine _ new f h = f

start-Active : (low : ℕ) (pc new : Pc) → Active low (start pc new) ⊎ (¬ Active low pc)
unfolding start
start-Active low idle new = inr (λ h. h)
start-Active low (admit_load u) new = inl tt
start-Active low (admit_cas u c n) new = inl tt
start-Active low (admit_flag u) new = inl tt
start-Active low (admit_reload u) new = inl tt
start-Active low (release_load u) new = inr (λ h. h)
start-Active low (release_cas u c n) new = inr (λ h. h)
start-Active low (release_swap n) new = elim (dec_le n low) [ yes h ↦ inl h | no h ↦ inr h ]

start-Inv :
    (m : AdmissionWatermarks) (w : World) (t : ℕ) (new : Pc)
    → Fine new
    → Inv m w
    → Inv m (record w { pcs = put w.pcs t (start (w.pcs t) new) })
start-Inv m w t new h v = record {
  fine = put-Fine w.pcs t _ v.fine (start-Fine (w.pcs t) new (v.fine t) h);
  alarmed = λ a. put-Active m.low w.pcs t _ (elim (start-Active m.low (w.pcs t) new) [
    | inl act ↦ inl act
    | inr n ↦ inr (n, v.alarmed a)
  ]);
  owed_flag = v.owed_flag;
}

owed-advance :
    (m : AdmissionWatermarks) (g : Gate) (pc : Pc) (b : Bool)
    → b ≡ g.pressured
    → owes pc (advance m g pc).2 b ≡ (advance m g pc).0.pressured
unfolding owes advance release_emits_write_ready
owed-advance m g idle b h = h
owed-advance m g (admit_load u) b h = ground arith
owed-advance m g (admit_cas u c n) b h = ground arith
owed-advance m g (admit_flag u) b h = refl
owed-advance m g (admit_reload u) b h = ground arith
owed-advance m g (release_load u) b h = h
owed-advance m g (release_cas u c n) b h = ground arith
owed-advance m g (release_swap n) b h = ground arith

go-Inv :
    (m : AdmissionWatermarks) (w : World) (t : ℕ)
    → Inv m w
    → Inv m (settle w t (advance m w.gate (w.pcs t)))
unfolding settle
go-Inv m w t v = record {
  fine = put-Fine w.pcs t _ v.fine (advance-Fine m w.gate (w.pcs t) (v.fine t));
  alarmed = λ a. put-Active m.low w.pcs t _ (elim (advance-Active m w.gate (w.pcs t) (v.fine t) a) [
    | inl act ↦ inl act
    | inr (n, b) ↦ inr (n, v.alarmed b)
  ]);
  owed_flag = owed-advance m w.gate (w.pcs t) w.owed v.owed_flag;
}

begin-Fine : (u : ℕ) → u < usize_mod → Fine (begin_admit u).0 × Fine (begin_release u).0
unfolding begin_admit begin_release
begin-Fine u h = ground arith

-- Every step of every thread keeps the invariant.
pub step-Inv :
    (m : AdmissionWatermarks) (w : World) (a : ℕ × Action) → Fits a → Inv m w → Inv m (step m w a)
unfolding step
step-Inv m w (t, admit u) h v = start-Inv m w t _ (begin-Fine u h).0 v
step-Inv m w (t, release u) h v = start-Inv m w t _ (begin-Fine u h).1 v
step-Inv m w (t, go) h v = go-Inv m w t v

run-Inv :
    (m : AdmissionWatermarks) (w : World) (schedule : List (ℕ × Action))
    → All Fits schedule
    → Inv m w
    → Inv m (run m w schedule)
unfolding run
run-Inv m w [] h v = v
run-Inv m w (a ∷ rest) h v = run-Inv m (step m w a) rest h.1 (step-Inv m w a h.0 v)

release_alone_lem :
    (m : AdmissionWatermarks) (g : Gate) (units : ℕ)
    → g.pressured ≡ true
    → 0 < units
    → g.queued ≤ units + m.low
    → (release_alone m g units).2 ≡ releases true
unfolding release_alone release_next release_emits_write_ready
release_alone_lem m g units p n h = ground arith

-- All threads are outside the two calls.
abbrev pub Quiet : World → Type 0
Quiet w = (t : ℕ) → w.pcs t ≡ idle

settled_queue :
    {m : AdmissionWatermarks} {w : World}
    → Inv m w
    → Quiet w
    → w.gate.pressured ≡ true
    → 0 < w.gate.queued
settled_queue {m} {w} v quiet pressed = elim (dec_lt 0 w.gate.queued) [
  | yes h ↦ h
  | no h ↦
      let (t, a) = v.alarmed (pressed, omega arith) in absurd (subst (Active m.low) (quiet t) a)
]

-- Whatever the interleaving of writers and releasers was, once all calls have ended and a writer
-- has raised the flag with no write-ready event since, the queue is not empty, and the next
-- release, if it is of at least one unit and takes the queue to the low mark or below, asks for
-- the event.
pub no_lost_wakeup :
    (high low : ℕ) (schedule : List (ℕ × Action))
    → All Fits schedule
    → let m = watermarks high low in
      let w = run m init schedule in
      Quiet w
      → w.owed ≡ true
      → (0 < w.gate.queued)
        × ((units : ℕ)
            → 0 < units
            → w.gate.queued ≤ units + m.low
            → (release_alone m w.gate units).2 ≡ releases true)
no_lost_wakeup high low schedule h quiet owed =
    (settled_queue v quiet pressed, λ units. release_alone_lem _ _ units pressed)
  where
    v : Inv (watermarks high low) (run (watermarks high low) init schedule)
    v = run-Inv _ init schedule h (init-Inv _)

    pressed : (run (watermarks high low) init schedule).gate.pressured ≡ true
    pressed = sym v.owed_flag ∙ owed
