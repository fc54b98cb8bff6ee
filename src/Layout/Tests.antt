-- ===== src/Layout/Tests.antt =====
-- Cursors, rings and handles at concrete values.
use http.Layout.Cursor.{cmsg_step_lem}
use http.Layout.{cmsg_header_fits, cmsg_step, CmsgStep}
use http.Common.{◌≡◌, ◌<◌, ◌≤◌, elem, ◌+◌, Bool, some, refl, ℕ, ◌∷◌, []}

abbrev pow2 : ℕ → Bool
pow2 n = elem n (1 ∷ 2 ∷ 4 ∷ 8 ∷ 16 ∷ [])

abbrev next_message : CmsgStep
next_message = record { data_offset = 16; next_offset = 24 }

step_found : cmsg_step pow2 64 0 16 20 8 ≡ some next_message
unfolding cmsg_step cmsg_header_fits
step_found = refl

cmsg_step_lem_example : (0 + 16 ≤ 16) × (16 ≤ 0 + 20) × (0 + 20 ≤ 24) × (0 < 24) × (24 ≤ 64)
cmsg_step_lem_example = cmsg_step_lem pow2 64 0 16 20 8 next_message step_found
