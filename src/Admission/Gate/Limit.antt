-- ===== src/Admission/Gate/Limit.antt =====
-- How much the window of src/outbound_admission.rs lets in.
use http.Admission.{release_next, AdmissionWatermarks}
use http.Admission.Bounds.{admit_next-Explains}
use http.Common.{inr, [], inl, ◌∷◌, ◌==◌, All, arith, Bool-cases, max, List, ◌≤◌, ℕ}
use http.Admission.Gate.{
  release_swap, release_cas, release_load, admit_reload, admit_flag, go, Gate, admit_cas, release,
  settle, begin_release, idle, put, admit_load, admit, init, run, step, begin_admit, start, advance,
  Pc, Action, World,
}

-- Every admission asks for at most `most` units.
abbrev pub AtMost : ℕ → ℕ × Action → Type 0
AtMost most (t, admit u) = u ≤ most
AtMost most (t, release u) = Unit {0}
AtMost most (t, go) = Unit {0}

-- The units that a place of the code carries, and the queue length that it is about to write.
abbrev Modest : ℕ → ℕ → Pc → Type 0
Modest most limit idle = Unit {0}
Modest most limit (admit_load u) = u ≤ most
Modest most limit (admit_cas u c n) = (u ≤ most) × (n ≤ limit)
Modest most limit (admit_flag u) = u ≤ most
Modest most limit (admit_reload u) = u ≤ most
Modest most limit (release_load u) = Unit {0}
Modest most limit (release_cas u c n) = n ≤ limit
Modest most limit (release_swap n) = Unit {0}

advance-Modest :
    (m : AdmissionWatermarks) (most : ℕ) (g : Gate) (pc : Pc)
    → g.queued ≤ max m.high most
    → Modest most (max m.high most) pc
    → ((advance m g pc).0.queued ≤ max m.high most)
      × Modest most (max m.high most) (advance m g pc).1
unfolding advance release_next
advance-Modest m most g idle q f = ground arith
advance-Modest m most g (admit_load u) q f = ground (arith, admit_next-Explains g.queued u m.high)
advance-Modest m most g (admit_cas u c n) q f = ground arith
advance-Modest m most g (admit_flag u) q f = ground arith
advance-Modest m most g (admit_reload u) q f = ground arith
advance-Modest m most g (release_load u) q f = ground arith
advance-Modest m most g (release_cas u c n) q f = ground arith
advance-Modest m most g (release_swap n) q f = ground arith

record Bounded (m : AdmissionWatermarks) (most : ℕ) (w : World) : Type 0 where
  pub within : w.gate.queued ≤ max m.high most
  pub modest : (t : ℕ) → Modest most (max m.high most) (w.pcs t)

put-Modest :
    (most limit : ℕ) (pcs : ℕ → Pc) (t : ℕ) (pc : Pc)
    → ((s : ℕ) → Modest most limit (pcs s))
    → Modest most limit pc
    → (s : ℕ) → Modest most limit (put pcs t pc s)
put-Modest most limit pcs t pc all one s = elim (Bool-cases (s == t)) [
  | inl e ↦ rw e one
  | inr e ↦ rw e (all s)
]

start-Modest :
    (most limit : ℕ) (pc new : Pc)
    → Modest most limit pc
    → Modest most limit new
    → Modest most limit (start pc new)
unfolding start
start-Modest most limit idle new f h = h
start-Modest most limit _ new f h = f

begin-Modest :
    (most limit u : ℕ)
    → (u ≤ most → Modest most limit (begin_admit u).0) × Modest most limit (begin_release u).0
unfolding begin_admit begin_release
begin-Modest most limit u = ground arith

step-Bounded :
    (m : AdmissionWatermarks) (most : ℕ) (w : World) (a : ℕ × Action)
    → AtMost most a
    → Bounded m most w
    → Bounded m most (step m w a)
unfolding step settle
step-Bounded m most w (t, admit u) h v = record {
  within = v.within;
  modest =
      put-Modest most _ w.pcs t _ v.modest
        (start-Modest most _ (w.pcs t) _ (v.modest t) ((begin-Modest most _ u).0 h));
}
step-Bounded m most w (t, release u) h v = record {
  within = v.within;
  modest =
      put-Modest most _ w.pcs t _ v.modest
        (start-Modest most _ (w.pcs t) _ (v.modest t) (begin-Modest most _ u).1);
}
step-Bounded m most w (t, go) h v =
    let (q, f) = advance-Modest m most w.gate (w.pcs t) v.within (v.modest t) in
    record { within = q; modest = put-Modest most _ w.pcs t _ v.modest f }

run-Bounded :
    (m : AdmissionWatermarks) (most : ℕ) (w : World) (schedule : List (ℕ × Action))
    → All (AtMost most) schedule
    → Bounded m most w
    → Bounded m most (run m w schedule)
unfolding run
run-Bounded m most w [] h v = v
run-Bounded m most w (a ∷ rest) h v =
    run-Bounded m most (step m w a) rest h.1 (step-Bounded m most w a h.0 v)

-- Whatever the interleaving, the queue never holds more than the high mark, or than the largest
-- single write where that is larger.
pub queued_bounded :
    (m : AdmissionWatermarks) (most : ℕ) (schedule : List (ℕ × Action))
    → All (AtMost most) schedule
    → (run m init schedule).gate.queued ≤ max m.high most
unfolding init
queued_bounded m most schedule h =
    (run-Bounded m most init schedule h (record { within = omega arith; modest = λ t. tt })).within
