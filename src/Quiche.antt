-- ===== src/Quiche.antt =====
-- What the connections of src/quic_connection.rs and src/connection.rs call of the quiche library: a
-- state and its operations, with what their documentation says of a send.
use http.ArcBuf.{ArcBuf}
use http.Common.{◌<◌, ◌+◌, ◌≡◌, List, Result, Option, Bool, none, some, ℕ, ok, err}

-- `quiche::Error`: nothing can be done now, or another error.
pub data QuicheError : Type 0 where
  done : QuicheError
  other : ℕ → QuicheError

abbrev pub error_code : QuicheError → ℕ
error_code done = 0
error_code (other code) = code

pub record QuicheApi : Type 1 where
  pub Conn : Type 0
  pub is_server : Conn → Bool
  pub stream_capacity : Conn → ℕ → Result ℕ ℕ
  pub stream_send : Conn → ℕ → List ℕ → Bool → Conn × Result ℕ QuicheError
  pub stream_send_zc : Conn → ℕ → ArcBuf → Bool → Conn × Result (ℕ × Option ArcBuf) QuicheError
  pub stream_shutdown : Conn → ℕ → Bool → ℕ → Conn
  pub stream_finished : Conn → ℕ → Bool
  pub stream_readable : Conn → ℕ → Bool
  pub stream_closed : Conn → ℕ → Bool
  pub is_dgram_send_queue_full : Conn → Bool
  pub dgram_send_buf : Conn → ArcBuf → Conn × Result (Unit {0}) QuicheError

-- The documentation of `stream_send_zc`, for a buffer that is not empty: it writes the whole buffer,
-- or gives back what is left of it, which is not empty.
abbrev pub SentAll : ℕ → ℕ × Option ArcBuf → Type 0
SentAll len (written, none) = written ≡ len
SentAll len (written, some rest) = (written + rest.len ≡ len) × (0 < rest.len)

abbrev pub ZcReply : ℕ → Result (ℕ × Option ArcBuf) QuicheError → Type 0
ZcReply len (ok r) = SentAll len r
ZcReply len (err e) = Unit {0}

abbrev pub SendsAll : QuicheApi → Type 0
SendsAll api =
    (q : api.Conn) (id : ℕ) (buf : ArcBuf) (fin : Bool)
    → 0 < buf.len
    → ZcReply buf.len (api.stream_send_zc q id buf fin).1
