-- ===== src/Cid.antt =====
-- src/cid.rs and src/proof_core/cid_model.rs: source connection ids, random or with a server id
-- in plain text for a QUIC load balancer.
pub mod Byte
pub mod Embed
mod Tests
use http.Error.{config, Http3NativeError}
use Prim.Native.Nat.{bit_and, bit_or}
use http.Common.{
  take, some, none, map_err, ◌||◌, ◌+◌, ◌==◌, [], ◌>>=◌, err, length, drop, ◌%◌, ltb, ok_or, ok,
  not, ◌++◌, ◌*◌, if◌then◌else◌, Result, ◌∷◌, leb, Option, List, Bool, ℕ,
}
use Prim.Native.String.{String}

-- `SCID_LEN`, which is `quiche::MAX_CONN_ID_LEN`, and `QUIC_LB_SERVER_ID_LEN`.
abbrev pub scid_len : ℕ
scid_len = 20

abbrev pub server_id_len : ℕ
server_id_len = 8

pub data CidModelError : Type 0 where
  invalid_scid_len : CidModelError
  invalid_config_rotation : CidModelError

unfoldable pub valid_config_rotation : ℕ → Bool
valid_config_rotation config_rotation = leb config_rotation 6

-- The first byte: the rotation bits over the low five random bits. `<<` drops what leaves a u8.
unfoldable pub config_byte : ℕ → ℕ → ℕ
config_byte config_rotation b =
    bit_or (bit_and (config_rotation * 32 % 256) 0b1110_0000) (bit_and b 0b0001_1111)

-- The writes to `scid[0]` and `scid[1..9]`; the length was checked before.
pub embed : List ℕ → List ℕ → ℕ → List ℕ
embed [] server_id config_rotation = []
embed (b ∷ rest) server_id config_rotation =
    config_byte config_rotation b ∷ (server_id ++ drop server_id_len rest)

-- `cid_model::apply_quic_lb_plaintext`
unfoldable pub model_apply : List ℕ → ℕ → List ℕ → ℕ → Result (List ℕ) CidModelError
unfolding embed valid_config_rotation
model_apply scid expected_scid_len server_id config_rotation =
    if not (length scid == expected_scid_len) || ltb expected_scid_len (1 + server_id_len)
    then err invalid_scid_len
    else if not (valid_config_rotation config_rotation)
    then err invalid_config_rotation
    else ok (embed scid server_id config_rotation)

abbrev pub rotation_message : String
rotation_message = "quic_lb config_rotation must be in range 0..=6 (0b111 is reserved)"

abbrev pub length_message : String
length_message = "scid length must be exactly 20 bytes"

cid_model_error : CidModelError → Http3NativeError
cid_model_error invalid_scid_len = config length_message
cid_model_error invalid_config_rotation = config rotation_message

-- `apply_quic_lb_plaintext`
unfoldable pub apply_plaintext : List ℕ → List ℕ → ℕ → Result (List ℕ) Http3NativeError
unfolding model_apply cid_model_error
apply_plaintext scid server_id config_rotation =
    if not (length scid == scid_len)
    then err (config length_message)
    else map_err cid_model_error (model_apply scid scid_len server_id config_rotation)

pub data CidEncoding : Type 0 where
  random : CidEncoding
  quic_lb : List ℕ → ℕ → CidEncoding

-- `CidEncoding::quic_lb_plaintext`
unfoldable pub quic_lb_plaintext : List ℕ → ℕ → Result CidEncoding Http3NativeError
unfolding valid_config_rotation
quic_lb_plaintext server_id config_rotation =
    if not (valid_config_rotation config_rotation)
    then err (config rotation_message)
    else ok (quic_lb server_id config_rotation)

unfoldable pub apply_encoding : CidEncoding → List ℕ → Result (List ℕ) Http3NativeError
unfolding apply_plaintext
apply_encoding random scid = ok scid
apply_encoding (quic_lb server_id config_rotation) scid =
    apply_plaintext scid server_id config_rotation

-- `generate_scid`: the argument is what `ring` filled the 20 bytes with, or its failure.
unfoldable pub generate_scid : CidEncoding → Option (List ℕ) → Result (List ℕ) Http3NativeError
unfolding apply_encoding
generate_scid encoding filled =
    ok_or filled (config "cryptographic RNG failed") >>= apply_encoding encoding

unfoldable pub generate_scid_from_bytes : CidEncoding → List ℕ → Result (List ℕ) Http3NativeError
unfolding apply_encoding
generate_scid_from_bytes encoding random_bytes =
    if not (length random_bytes == scid_len)
    then err (config "random_bytes must be exactly 20 bytes")
    else apply_encoding encoding random_bytes

unfoldable pub parse_server_id_bytes : List ℕ → Result (List ℕ) Http3NativeError
parse_server_id_bytes server_id =
    if not (length server_id == server_id_len)
    then err (config "server_id must be exactly 8 bytes")
    else ok server_id

-- `extract_plaintext_server_id`, what a load balancer reads.
unfoldable pub extract_plaintext_server_id : List ℕ → Option (List ℕ)
extract_plaintext_server_id scid =
    if ltb (length scid) (1 + server_id_len) then none else some (take server_id_len (drop 1 scid))
