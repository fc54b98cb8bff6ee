-- ===== src/H3Connection/Limits.antt =====
-- Read credit and GOAWAY of src/connection.rs.
use http.Common.{
  ◌⊎◌, ◌^◌, Option-cases, saturating_add, ◌<◌, ◌≢◌, min, ◌==◌, ◌≤◌, ◌%◌, ◌≡◌, Option, All, inl, inr,
  none, some, refl, ℕ, arith,
}
use http.H3Connection.{H3Api, Http3, add_read_credit, goaway_id, max_server_goaway_request_id}
use http.Common.{find, find-put, find-put_other, put-All}

module _ (api : H3Api) where
  -- No stream's credit is above the window.
  abbrev pub Bounded : ℕ → Http3 api → Type 0
  Bounded window c = All (λ e. e.1 ≤ window) c.read_credit

  abbrev pub credit : Http3 api → ℕ → Option ℕ
  credit c id = find ◌==◌ id c.read_credit

  abbrev pub given : ℕ → ℕ → Option ℕ → Option ℕ
  given window bytes none = none
  given window bytes (some credit) = some (min (saturating_add credit bytes) window)

  -- Returned credit is added to a stream that is being read, up to the window, which bounds every
  -- credit before and after; a stream that is not read gets none, and the others keep theirs.
  pub add_read_credit_lem :
      (c : Http3 api) (id bytes window : ℕ)
      → c.stream_read_window ≡ some window
      → Bounded window c
      → let c' = add_read_credit api c id bytes in
        Bounded window c'
        × (credit c' id ≡ given window bytes (credit c id))
        × ((k : ℕ) → k ≢ id → credit c' k ≡ credit c k)
  unfolding add_read_credit
  add_read_credit_lem c id bytes window w b = elim (Option-cases (credit c id)) [
    | inl e ↦ rw (w, e) (b, e, λ k h. refl)
    | inr (n, e) ↦
        rw (w, e)
          (
            put-All ◌==◌ (λ e. e.1 ≤ window) id _ c.read_credit (λ j. ground arith) b,
            find-put ◌==◌ id _ c.read_credit (ground arith),
            λ k h.
                find-put_other ◌==◌ id k _ c.read_credit (λ j s. ground (arith, s, h))
                  (ground (arith, h)),
          )
  ]

-- A GOAWAY names an id that a client may open: a multiple of four, in range, and above every request
-- that was accepted unless the ids are used up.
pub goaway_id_lem :
    (id : ℕ)
    → id % 4 ≡ 0
    → id < 2 ^ 62
    → (goaway_id (some id) % 4 ≡ 0)
      × (goaway_id (some id) < 2 ^ 62)
      × ((id < goaway_id (some id)) ⊎ (id ≡ max_server_goaway_request_id))
goaway_id_lem id m h = (ground arith, ground arith, ground arith)
