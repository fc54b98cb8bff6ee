-- ===== src/Admission/Bounds.antt =====
-- Bounds of the admission arithmetic of src/proof_core/admission.rs.
use http.Common.{◌⊎◌, ℕ, ◌+◌, ◌≤◌, ◌<◌, max, ◌≡◌, Bool, arith, usize_mod}
use http.Admission.{
  backpressured, AdmitOutcome, watermarks, admitted, outbound_payload_units,
  accepted_outbound_payload_units, admit_next,
}

-- The marks are usable: the high one is positive, and the low one lies strictly below it.
pub watermarks-ordered :
    (high low : ℕ)
    → (0 < (watermarks high low).high) × ((watermarks high low).low < (watermarks high low).high)
unfolding watermarks
watermarks-ordered high low = omega arith

-- What is released for a send never exceeds what the write was admitted for, nor the payload.
pub accepted-le-outbound :
    (payload_len : ℕ) (fin : Bool) (written : ℕ) (fin_accepted : Bool)
    → (accepted_outbound_payload_units payload_len fin written fin_accepted
        ≤ outbound_payload_units payload_len fin)
      × (accepted_outbound_payload_units payload_len fin written fin_accepted ≤ max payload_len 1)
unfolding outbound_payload_units accepted_outbound_payload_units
accepted-le-outbound payload_len fin written fin_accepted = ground arith

-- What each outcome of `admit_next` tells of its inputs.
abbrev pub Explains : ℕ → ℕ → ℕ → AdmitOutcome → Type 0
Explains current units high (admitted next) =
    (next ≡ current + units) × ((units ≡ 0) ⊎ ((next < usize_mod) × (next ≤ max high units)))
Explains current units high backpressured =
    (0 < units)
    × ((0 < current) ⊎ (usize_mod ≤ units))
    × ((usize_mod ≤ current + units) ⊎ (max high units < current + units))

-- An admission adds exactly its units, without overflow, and passes the high mark only for a write
-- that is larger by itself; a refusal has a reason: something is queued, or the write overflows.
pub admit_next-Explains :
    (current units high : ℕ) → Explains current units high (admit_next current units high)
unfolding admit_next
admit_next-Explains current units high = ground arith
