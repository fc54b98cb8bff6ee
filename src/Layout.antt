-- ===== src/Layout.antt =====
-- Pure layout arithmetic: src/proof_core/cmsg_cursor.rs (the cursor over the control messages of a
-- received datagram), src/proof_core/ring_layout.rs (the ring of provided buffers) and
-- src/server_sharding.rs (the worker's index in a connection handle).
pub mod Cursor
pub mod Handles
mod Tests
use http.Common.{
  saturating_add, ◌-◌, ◌&&◌, ◌||◌, not, leb, ◌==◌, ◌^◌, checked_mul, ltb, checked_add,
  if◌then◌else◌, ◌*◌, ◌%◌, ◌/◌, Option, Bool, none, some, false, ℕ,
}

-- `?` on an option.
infixl 5 ◌>>=◌
abbrev pub ◌>>=◌ {ℓ κ} : {A : Type ℓ} {B : Type κ} → Option A → (A → Option B) → Option B
none >>= f = none
some a >>= f = f a

-- `checked_cmsg_align`. `is_pow2` stands for `usize::is_power_of_two` of the standard library, and
-- `len & !(align - 1)` is rounding down to a multiple of a power of two.
module _ (is_pow2 : ℕ → Bool) where
  abbrev pub checked_cmsg_align : ℕ → ℕ → Option ℕ
  checked_cmsg_align len align =
      if (align == 0) || not (is_pow2 align)
      then none
      else elim (checked_add len (align - 1)) [ none ↦ none | some sum ↦ some (sum - sum % align) ]

pub record CmsgStep : Type 0 where
  pub data_offset : ℕ
  pub next_offset : ℕ

unfoldable pub cmsg_header_fits : ℕ → ℕ → ℕ → Bool
cmsg_header_fits control_len offset hdr_size = elim (checked_add offset hdr_size) [
  | none ↦ false
  | some end ↦ leb end control_len
]

module _ (is_pow2 : ℕ → Bool) where
  abbrev pub cmsg_data_offset : ℕ → ℕ → Option ℕ
  cmsg_data_offset hdr_size align = checked_cmsg_align is_pow2 hdr_size align

  -- The last guard of `cmsg_step`: the cursor moves forward and stays in the buffer.
  abbrev pub step_to : ℕ → ℕ → ℕ → ℕ → Option CmsgStep
  step_to control_len offset data_offset next_offset =
      if leb next_offset offset || ltb control_len next_offset
      then none
      else some (record { data_offset = data_offset; next_offset = next_offset })

  -- The offsets, once the header is known to fit.
  abbrev pub step_from : ℕ → ℕ → ℕ → ℕ → ℕ → Option CmsgStep
  step_from control_len offset cmsg_len align data_relative =
      if ltb cmsg_len data_relative
      then none
      else checked_add offset data_relative >>= (λ data_offset.
        checked_cmsg_align is_pow2 cmsg_len align >>= (λ aligned_len.
          checked_add offset aligned_len
          >>= (λ next_offset. step_to control_len offset data_offset next_offset)))

  unfoldable pub cmsg_step : ℕ → ℕ → ℕ → ℕ → ℕ → Option CmsgStep
  cmsg_step control_len offset hdr_size cmsg_len align =
      if (cmsg_len == 0) || not (cmsg_header_fits control_len offset hdr_size)
      then none
      else cmsg_data_offset hdr_size align
        >>= (λ data_relative. step_from control_len offset cmsg_len align data_relative)

abbrev pub provided_buffer_id_is_valid : ℕ → ℕ → Bool
provided_buffer_id_is_valid bid ring_size = ltb bid ring_size

abbrev pub provided_buffer_offset : ℕ → ℕ → Option ℕ
provided_buffer_offset bid buf_size = checked_mul bid buf_size

abbrev pub provided_buffer_layout_size : ℕ → ℕ → Option ℕ
provided_buffer_layout_size ring_size buf_size = checked_mul ring_size buf_size

unfoldable pub provided_buffer_range_in_layout : ℕ → ℕ → ℕ → Bool
provided_buffer_range_in_layout bid ring_size buf_size =
    if not (provided_buffer_id_is_valid bid ring_size)
    then false
    else elim (provided_buffer_offset bid buf_size) [
      | none ↦ false
      | some offset ↦ elim (provided_buffer_layout_size ring_size buf_size) [
        | none ↦ false
        | some layout_size ↦
            ltb offset layout_size && leb (saturating_add offset buf_size) layout_size
      ]
    ]

-- `worker_shift` is 20: a handle is a `u32` with the worker in its upper 12 bits.
abbrev pub worker_shift : ℕ
worker_shift = 20

unfoldable pub worker_index : ℕ → ℕ
worker_index conn_handle = conn_handle / 2 ^ worker_shift

-- `conn_handle & WORKER_MASK`
unfoldable pub local_conn_handle : ℕ → ℕ
local_conn_handle conn_handle = conn_handle % 2 ^ worker_shift

-- `worker_index << worker_shift` on u32.
unfoldable pub handle_offset : ℕ → ℕ
handle_offset worker_index = (worker_index * 2 ^ worker_shift) % 2 ^ 32
