-- ===== src/Token.antt =====
-- src/proof_core/retry_token_model.rs: the payload of a retry token, built for the peer that asked
-- and parsed from bytes that the peer sends back. Bytes are numbers below 256.
pub mod Words
pub mod Slices
pub mod RoundTrip
pub mod Sound
mod Tests
use http.Common.{
  zero, some, bytes_eq, ◌/◌, ◌^◌, none, get_elem?, ◌-◌, ◌==◌, ◌+◌, drop, ◌%◌, ◌*◌, suc, ◌<◌, ltb,
  Option, take, ◌++◌, ◌∷◌, [], ◌≡◌, if◌then◌else◌, length, List, ℕ,
}

-- std's `SocketAddr`: four or sixteen address bytes, and a u16 port.
pub data SocketAddr : Type 0 where
  v4 : List ℕ → ℕ → SocketAddr
  v6 : List ℕ → ℕ → SocketAddr

-- The address bytes have the length of the family, and the port fits 16 bits.
abbrev pub IsAddr : SocketAddr → Type 0
IsAddr (v4 ip port) = (length ip ≡ 4) × (port < 2 ^ 16)
IsAddr (v6 ip port) = (length ip ≡ 16) × (port < 2 ^ 16)

-- `to_be_bytes` of an integer of `n` bytes, and `from_be_bytes`.
unfoldable pub to_be_bytes : ℕ → ℕ → List ℕ
to_be_bytes zero v = []
to_be_bytes (suc n) v = to_be_bytes n (v / 256) ++ (v % 256 ∷ [])

pub from_be : ℕ → List ℕ → ℕ
from_be acc [] = acc
from_be acc (b ∷ bs) = from_be (acc * 256 + b) bs

unfoldable pub from_be_bytes : List ℕ → ℕ
unfolding from_be
from_be_bytes bs = from_be 0 bs

pub addr_part : SocketAddr → List ℕ
unfolding to_be_bytes
addr_part (v4 ip port) = 4 ∷ (ip ++ to_be_bytes 2 port)
addr_part (v6 ip port) = 6 ∷ (ip ++ to_be_bytes 2 port)

-- `odcid.len() as u8` keeps the low eight bits.
unfoldable pub build_token_payload : SocketAddr → ℕ → List ℕ → List ℕ
unfolding addr_part
build_token_payload peer now odcid =
    addr_part peer ++ (to_be_bytes 8 now ++ (length odcid % 256 ∷ odcid))

-- `payload[pos..pos + n]`, read after the length check that the source makes.
unfoldable pub slice : List ℕ → ℕ → ℕ → List ℕ
slice payload pos n = take n (drop pos payload)

-- The address check: the position after the port, or a mismatch.
pub check_addr : List ℕ → ℕ → List ℕ → ℕ → Option ℕ
unfolding slice to_be_bytes
check_addr payload n ip port =
    if ltb (length payload) (1 + (n + 2))
    then none
    else if bytes_eq (slice payload 1 n) ip
    then if bytes_eq (slice payload (1 + n) 2) (to_be_bytes 2 port) then some (1 + n + 2) else none
    else none

pub check_family : List ℕ → ℕ → SocketAddr → Option ℕ
unfolding check_addr
check_family payload family (v4 ip port) =
    if family == 4 then check_addr payload 4 ip port else none
check_family payload family (v6 ip port) =
    if family == 6 then check_addr payload 16 ip port else none

-- `a.abs_diff(b)`
pub abs_diff : ℕ → ℕ → ℕ
abs_diff a b = if ltb a b then b - a else a - b

pub parse_odcid : List ℕ → ℕ → Option (List ℕ)
unfolding slice
parse_odcid payload pos = elim (get_elem? payload pos) [
  | none ↦ none
  | some odcid_len ↦
      if ltb (length payload) (pos + 1 + odcid_len)
      then none
      else some (slice payload (pos + 1) odcid_len)
]

pub parse_stamp : List ℕ → ℕ → ℕ → ℕ → Option (List ℕ)
unfolding slice from_be_bytes abs_diff parse_odcid
parse_stamp payload now lifetime_secs pos =
    if ltb (length payload) (pos + 8)
    then none
    else let timestamp = from_be_bytes (slice payload pos 8) in
      if ltb lifetime_secs (abs_diff now timestamp) then none else parse_odcid payload (pos + 8)

unfoldable pub parse_token_payload : List ℕ → SocketAddr → ℕ → ℕ → Option (List ℕ)
unfolding check_family parse_stamp
parse_token_payload [] peer now lifetime_secs = none
parse_token_payload (family ∷ rest) peer now lifetime_secs =
    elim (check_family (family ∷ rest) family peer) [
      | none ↦ none
      | some pos ↦ parse_stamp (family ∷ rest) now lifetime_secs pos
    ]
