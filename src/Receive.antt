-- ===== src/Receive.antt =====
-- src/proof_core/recv_buf_model.rs: the lengths of a receive buffer while it is filled.
mod Tests
use http.Common.{
  ◌↔◌, ◌+◌, ◌==◌, ◌≡◌, ◌-◌, usize_mod, ◌&&◌, ◌<◌, saturating_add, leb, ◌≤◌, min, saturating_sub,
  Bool, true, ℕ, arith,
}

pub record RecvBufModel : Type 0 where
  pub initialized_len : ℕ
  pub target_len : ℕ

unfoldable pub new : ℕ → RecvBufModel
new target_len = record { initialized_len = 0; target_len = target_len }

unfoldable pub is_full : RecvBufModel → Bool
is_full b = leb b.target_len b.initialized_len

unfoldable pub remaining_space : RecvBufModel → ℕ
remaining_space b = saturating_sub b.target_len b.initialized_len

unfoldable pub append_len : RecvBufModel → ℕ → ℕ
unfolding remaining_space
append_len b requested_len = min requested_len (remaining_space b)

unfoldable pub after_append : RecvBufModel → ℕ → RecvBufModel
after_append b written = record b {
  initialized_len = min (saturating_add b.initialized_len written) b.target_len;
}

unfoldable pub reported_write_is_valid : ℕ → ℕ → ℕ → ℕ → Bool
reported_write_is_valid before remaining written actual_after =
    leb written remaining && leb before actual_after && (actual_after - before == written)

-- Appending as many bytes as `append_len` allows never passes the target and loses none of them,
-- its report is valid, and it fills the buffer exactly if at least the remaining space was asked
-- for; the target is a usize.
pub after_append_lem :
    (b : RecvBufModel) (requested : ℕ)
    → b.initialized_len ≤ b.target_len
    → b.target_len < usize_mod
    → let b' = after_append b (append_len b requested) in
      (b'.initialized_len ≤ b'.target_len)
      × (b'.initialized_len ≡ b.initialized_len + append_len b requested)
      × (reported_write_is_valid b.initialized_len
            (remaining_space b)
            (append_len b requested)
            b'.initialized_len
          ≡ true)
      × ((is_full b' ≡ true) ↔ (remaining_space b ≤ requested))
unfolding after_append append_len remaining_space reported_write_is_valid is_full
after_append_lem b requested h k =
    (ground arith, ground arith, ground arith, (ground arith, ground arith))
