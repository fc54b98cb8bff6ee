-- ===== src/Admission.antt =====
-- src/proof_core/admission.rs: what a write costs, and how the outbound queue admits and
-- releases units. Counts are usize values.
pub mod Bounds
pub mod Gate
mod Tests
use http.Common.{
  ℕ, min, max, Bool, not, ◌&&◌, Option, none, some, leb, ◌==◌, if◌then◌else◌, checked_add,
  saturating_sub, from_bool,
}

pub record AdmissionWatermarks : Type 0 where
  pub high : ℕ
  pub low : ℕ

-- `AdmissionWatermarks::new`: the high mark is at least 1, the low one strictly below it.
pub watermarks : ℕ → ℕ → AdmissionWatermarks
watermarks high low =
    let high' = max high 1 in record { high = high'; low = min low (saturating_sub high' 1) }

pub data AdmitOutcome : Type 0 where
  admitted : ℕ → AdmitOutcome
  backpressured : AdmitOutcome

unfoldable pub outbound_payload_units : ℕ → Bool → ℕ
outbound_payload_units payload_len fin = max payload_len (from_bool fin)

unfoldable pub accepted_outbound_payload_units : ℕ → Bool → ℕ → Bool → ℕ
accepted_outbound_payload_units payload_len fin written fin_accepted =
    if payload_len == 0
    then from_bool (fin && fin_accepted)
    else let accepted_payload = min written payload_len in
      if fin && not fin_accepted && (accepted_payload == payload_len)
      then saturating_sub accepted_payload 1
      else accepted_payload

admit_checked : Option ℕ → ℕ → AdmitOutcome
admit_checked none limit = backpressured
admit_checked (some next_queued) limit =
    if leb next_queued limit then admitted next_queued else backpressured

unfoldable pub admit_next : ℕ → ℕ → ℕ → AdmitOutcome
unfolding admit_checked
admit_next current units high_water =
    if units == 0
    then admitted current
    else admit_checked (checked_add current units) (max high_water units)

unfoldable pub release_next : ℕ → ℕ → ℕ
release_next current units = saturating_sub current units

unfoldable pub release_emits_write_ready : ℕ → ℕ → Bool → Bool
release_emits_write_ready next_queued low_water was_pressured =
    leb next_queued low_water && was_pressured
