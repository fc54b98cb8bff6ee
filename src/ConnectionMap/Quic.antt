-- ===== src/ConnectionMap/Quic.antt =====
-- `QuicConnectionMap` of src/quic_worker.rs: the operations of the HTTP/3 server's map, written out
-- once more over QUIC connections. They are the same functions of the connection type.
use http.Error.{Http3NativeError}
use http.Token.{SocketAddr}
use http.ConnectionMap.{
  accept_new, drain_closed, remove, validate_token, mint_token, add_dcid, Map, Env,
}
use http.Common.{Result, Option, List, ℕ}

module _ {C : Type 0} (env : Env C) where
  abbrev pub QuicConnectionMap : Type 0
  QuicConnectionMap = Map env

  unfoldable pub quic_add_dcid : QuicConnectionMap → ℕ → List ℕ → QuicConnectionMap
  quic_add_dcid m handle dcid = add_dcid env m handle dcid

  unfoldable pub quic_mint_token : QuicConnectionMap → SocketAddr → List ℕ → ℕ → List ℕ
  quic_mint_token m peer odcid now = mint_token env m peer odcid now

  unfoldable pub quic_validate_token : QuicConnectionMap → List ℕ → SocketAddr → ℕ → Option (List ℕ)
  quic_validate_token m token peer now = validate_token env m token peer now

  unfoldable pub quic_accept_new :
      QuicConnectionMap → List ℕ → Result C ℕ → QuicConnectionMap × Result ℕ Http3NativeError
  quic_accept_new m scid accepted = accept_new env m scid accepted

  unfoldable pub quic_remove : QuicConnectionMap → ℕ → QuicConnectionMap × Option C
  quic_remove m handle = remove env m handle

  unfoldable pub quic_drain_closed : QuicConnectionMap → QuicConnectionMap × List (ℕ × C)
  quic_drain_closed m = drain_closed env m
