-- ===== src/Admission/Gate/Release.antt =====
-- A release with no other thread in between, src/outbound_admission.rs.
use http.Common.{==_iff, leb, ◌==◌, Bool-cases, ◌≡◌, inl, inr, true, refl, ℕ, arith}
use http.Admission.Gate.{release_alone, advance, after_release, Gate}
use http.Admission.{AdmissionWatermarks, release_next}

after_release-queued :
    (m : AdmissionWatermarks) (g : Gate) (next : ℕ) → (after_release m g next).0.queued ≡ g.queued
unfolding after_release
after_release-queued m g next = elim (Bool-cases (leb next m.low)) [
  | inl e ↦ rw e refl
  | inr e ↦ rw e refl
]

-- It takes the units off what is queued, down to 0.
pub release_alone-queued :
    (m : AdmissionWatermarks) (g : Gate) (units : ℕ)
    → (release_alone m g units).0.queued ≡ release_next g.queued units
unfolding release_alone advance release_next
release_alone-queued m g units = elim (Bool-cases (units == 0)) [
  | inl z ↦ rw z (nothing ((==_iff units 0).0 z))
  | inr z ↦
      rw (z, the_same)
        (after_release-queued m (record g { queued = release_next g.queued units })
          (release_next g.queued units))
]
  where
    nothing : units ≡ 0 → g.queued ≡ release_next g.queued units
    nothing z = omega (arith, z)

    the_same : (g.queued == g.queued) ≡ true
    the_same = ground arith
