-- ===== src/Admission/Gate/Tests.antt =====
-- The theorems on the window of src/outbound_admission.rs at concrete schedules.
use http.Admission.Gate.Wakeup.{Quiet, no_lost_wakeup}
use http.Admission.Gate.Limit.{queued_bounded}
use http.Admission.Gate.Buffered.{wakeup_lost_when_buffered, race, cold, moves}
use http.Admission.Gate.{
  after_reload, after_load, advance, owes, idle, releases, settle, release_alone, begin_admit,
  start, go, step, admit, init, Action, run,
}
use http.Admission.{admit_next, watermarks, AdmissionWatermarks}
use http.Common.{◌≡◌, max, ◌+◌, ◌≤◌, ◌<◌, List, true, false, refl, ℕ, ◌∷◌, [], arith}

-- A writer fills a window of 4 units, and a second one is refused.
abbrev refused : List (ℕ × Action)
refused = (0, admit 4) ∷ (0, go) ∷ (0, go) ∷ (1, admit 1) ∷ (1, go) ∷ (1, go) ∷ (1, go) ∷ []

abbrev marks : AdmissionWatermarks
marks = watermarks 4 1

refused_queue : (run marks init refused).gate.queued ≡ 4
unfolding watermarks run init step start begin_admit settle owes advance after_load after_reload
    admit_next
refused_queue = refl

refused_owed : (run marks init refused).owed ≡ true
unfolding watermarks run init step start begin_admit settle owes advance after_load after_reload
    admit_next
refused_owed = refl

refused-Quiet : Quiet (run marks init refused)
unfolding watermarks run init step start begin_admit settle owes advance after_load after_reload
    admit_next
refused-Quiet t = ground arith

no_lost_wakeup_example :
    let m = watermarks 4 1 in
    let w = run m init refused in
    (0 < w.gate.queued)
    × ((units : ℕ)
        → 0 < units
        → w.gate.queued ≤ units + m.low
        → (release_alone m w.gate units).2 ≡ releases true)
no_lost_wakeup_example = no_lost_wakeup 4 1 refused (ground arith) refused-Quiet refused_owed

queued_bounded_example : (run marks init refused).gate.queued ≤ max marks.high 4
queued_bounded_example = queued_bounded marks 4 refused (ground arith)

wakeup_lost_when_buffered_example :
    let c = moves (watermarks 4 1) cold (race (watermarks 4 1).high 1) in
    ((t : ℕ) → c.world.pcs t ≡ idle)
    × ((t : ℕ) → c.buffered t ≡ false)
    × (c.world.gate.pressured ≡ true)
    × (c.world.gate.queued ≡ 0)
unfolding watermarks
wakeup_lost_when_buffered_example =
    wakeup_lost_when_buffered 4 1 1 (omega arith) (omega arith) (omega arith)
