-- ===== src/Layout/Handles.antt =====
-- The worker's index in a connection handle, src/server_sharding.rs, and the buffers of a ring,
-- src/proof_core/ring_layout.rs.
use http.Layout.{local_conn_handle, worker_index, provided_buffer_range_in_layout, handle_offset}
use http.Common.{
  refl, inr, le→leb, lt→ltb, ltb→lt, inl, ltb, Bool-cases, zero, suc, ◌↔◌, arith, ◌≤◌, ◌≡◌, ◌^◌,
  ◌+◌, usize_mod, ◌*◌, ◌<◌, true, ℕ,
}

-- A handle made of a worker below 2 ^ 12 and a local handle below 2 ^ 20 is a `u32`, and both are
-- read back from it.
pub handle_round_trip :
    (worker conn_local : ℕ)
    → worker < 2 ^ 12
    → conn_local < 2 ^ 20
    → let handle = handle_offset worker + conn_local in
      (handle < 2 ^ 32) × (worker_index handle ≡ worker) × (local_conn_handle handle ≡ conn_local)
unfolding handle_offset worker_index local_conn_handle
handle_round_trip worker conn_local w l = (omega arith, omega arith, omega arith)

-- A buffer ends before a later one starts.
next_fits : (a b buf_size : ℕ) → a < b → a * buf_size + buf_size ≤ b * buf_size
next_fits zero b buf_size h = at_zero b h
  where
    at_zero : (b : ℕ) → zero < b → zero * buf_size + buf_size ≤ b * buf_size
    at_zero zero h = absurd (omega arith)
    at_zero (suc b) h = omega arith
next_fits (suc a) zero buf_size h = absurd (omega arith)
next_fits (suc a) (suc b) buf_size h = omega (arith, next_fits a b buf_size (omega arith))

-- For a ring whose layout has a size, the check passes exactly for the buffers of the ring, when
-- buffers are not empty.
pub range_in_layout_iff :
    (bid ring_size buf_size : ℕ)
    → 0 < buf_size
    → ring_size * buf_size < usize_mod
    → (provided_buffer_range_in_layout bid ring_size buf_size ≡ true) ↔ (bid < ring_size)
unfolding provided_buffer_range_in_layout
range_in_layout_iff bid ring_size buf_size h k = elim (Bool-cases (ltb bid ring_size)) [
  | inl e ↦
      let end = next_fits bid ring_size buf_size (ltb→lt bid ring_size e) in
      (
        λ q. ltb→lt bid ring_size e,
        λ lt.
            rw
              (
                e,
                lt→ltb (bid * buf_size) usize_mod (omega (arith, end, k)),
                lt→ltb (ring_size * buf_size) usize_mod k,
                lt→ltb (bid * buf_size + buf_size) usize_mod (omega (arith, end, k)),
                lt→ltb (bid * buf_size) (ring_size * buf_size) (omega (arith, end, h)),
                le→leb (bid * buf_size + buf_size) (ring_size * buf_size) end,
              )
              refl,
      )
  | inr e ↦ (λ q. absurd (ground (arith, rw e at q)), λ lt. absurd (ground (arith, e, lt)))
]
