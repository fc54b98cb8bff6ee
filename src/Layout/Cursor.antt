-- ===== src/Layout/Cursor.antt =====
-- The cursor over control messages, src/proof_core/cmsg_cursor.rs.
use http.Layout.{
  step_to, step_from, cmsg_data_offset, ◌>>=◌, checked_cmsg_align, CmsgStep, cmsg_header_fits,
  cmsg_step,
}
use http.Common.{
  ltb, not, ◌||◌, ◌==◌, if◌then◌else◌, refl, none, arith, checked_add, Option, ◌<◌, ◌≤◌, ◌+◌, ◌≡◌,
  Bool, some, ℕ,
}

some_of {ℓ κ} :
    {A : Type ℓ} {B : Type κ} (o : Option A) (f : A → Option B) (b : B)
    → (o >>= f) ≡ some b
    → (a : A) × (o ≡ some a) × (f a ≡ some b)
some_of none f b h = absurd (ground arith)
some_of (some a) f b h = (a, refl, h)

added : (a b c : ℕ) → checked_add a b ≡ some c → a + b ≡ c
added a b c h = ground (arith, h)

module _ (is_pow2 : ℕ → Bool) where
  aligned_ge : (len align r : ℕ) → checked_cmsg_align is_pow2 len align ≡ some r → len ≤ r
  aligned_ge len align r h = ground (arith, h)

  -- A step that is taken moves the cursor strictly forward, to the end of the message or past it and
  -- within the buffer, and the data starts behind the header and no later than the message ends.
  pub cmsg_step_lem :
      (control_len offset hdr_size cmsg_len align : ℕ) (step : CmsgStep)
      → cmsg_step is_pow2 control_len offset hdr_size cmsg_len align ≡ some step
      → (offset + hdr_size ≤ step.data_offset)
        × (step.data_offset ≤ offset + cmsg_len)
        × (offset + cmsg_len ≤ step.next_offset)
        × (offset < step.next_offset)
        × (step.next_offset ≤ control_len)
  unfolding cmsg_step cmsg_header_fits
  cmsg_step_lem control_len offset hdr_size cmsg_len align step h =
      let (rel, e0, h0) =
        some_of (cmsg_data_offset is_pow2 hdr_size align)
          (λ rel. step_from is_pow2 control_len offset cmsg_len align rel) step (guarded _ h) in
      let (le, h1) = fits_message rel _ h0 in
      let (data_offset, e2, h2) =
        some_of (checked_add offset rel)
          (λ d.
            checked_cmsg_align is_pow2 cmsg_len align
            >>= (λ l. checked_add offset l >>= (λ n. step_to is_pow2 control_len offset d n)))
          step h1 in
      let (len, e3, h3) =
        some_of (checked_cmsg_align is_pow2 cmsg_len align)
          (λ l. checked_add offset l >>= (λ n. step_to is_pow2 control_len offset data_offset n))
          step h2 in
      let (next, e4, h4) =
        some_of (checked_add offset len) (λ n. step_to is_pow2 control_len offset data_offset n)
          step h3 in
      let (forward, inside, d, n) = taken data_offset next h4 in
      let ge_header = aligned_ge hdr_size align rel e0 in
      let ge_message = aligned_ge cmsg_len align len e3 in
      let sum = added offset rel data_offset e2 in
      let next_sum = added offset len next e4 in
      (
        omega (arith, ge_header, sum, d),
        omega (arith, le, sum, d),
        omega (arith, ge_message, next_sum, n),
        omega (arith, forward, n),
        omega (arith, inside, n),
      )
    where
      guarded :
          (o : Option CmsgStep)
          → (if (cmsg_len == 0) || not (cmsg_header_fits control_len offset hdr_size)
              then none
              else o)
            ≡ some step
          → o ≡ some step
      guarded o q = ground (arith, q)

      fits_message :
          (rel : ℕ) (o : Option CmsgStep)
          → (if ltb cmsg_len rel then none else o) ≡ some step
          → (rel ≤ cmsg_len) × (o ≡ some step)
      fits_message rel o q = ground (arith, q)

      taken :
          (d n : ℕ)
          → step_to is_pow2 control_len offset d n ≡ some step
          → (offset < n) × (n ≤ control_len) × (step.data_offset ≡ d) × (step.next_offset ≡ n)
      taken d n q = ground (arith, q)
