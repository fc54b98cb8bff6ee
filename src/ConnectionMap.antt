-- ===== src/ConnectionMap.antt =====
-- src/connection_map.rs: routing by connection id, retry tokens, and the life of a server's
-- connections. `QuicConnectionMap` of src/quic_worker.rs has the same operations over another
-- connection type, so the connection is a parameter here.
pub mod Slab
pub mod Tokens
pub mod Routes
pub mod Drain
pub mod Quic
mod Tests
use http.Error.{quiche, config, Http3NativeError}
use http.RetryToken.{hmac_sha256_verify, hmac_sha256, next_scid, Boring, DeterministicScidSource}
use http.ConnectionMap.Slab.{SlabApi}
use http.Token.{parse_token_payload, build_token_payload, SocketAddr}
use http.Cid.{random, generate_scid, CidEncoding}
use http.Common.{
  [], take, not, drop, err, ok, length, ◌++◌, leb, ltb, some, bytes_eq, ◌∷◌, ◌==◌, if◌then◌else◌,
  is_some, none, Result, Option, List, Bool, ℕ,
}
use Prim.Native.String.{String}
use http.RetryToken

abbrev pub token_lifetime_secs : ℕ
token_lifetime_secs = 60

abbrev pub default_max_connections : ℕ
default_max_connections = 10_000

-- What the operations use of other code: the connection's `is_closed`, the `slab` and `boring`
-- crates, and the text of the error for a full map.
pub record Env (C : Type 0) : Type 1 where
  pub is_closed : C → Bool
  pub slab : SlabApi C
  pub boring : Boring
  pub full_message : ℕ → String

-- The map from connection ids to handles is a function; it is never iterated.
pub record ConnectionMap (S : Type 0) : Type 0 where
  pub by_dcid : List ℕ → Option ℕ
  pub connections : S
  pub token_key : List ℕ
  pub max_connections : ℕ
  pub cid_encoding : CidEncoding
  pub scid_source : DeterministicScidSource

module _ {C : Type 0} (env : Env C) where
  open env use {is_closed, boring}
  open env.slab use {
    Slab, get as slab_get, insert as slab_insert, remove as slab_remove, len as slab_len, keys,
  }

  abbrev pub Map : Type 0
  Map = ConnectionMap Slab

  unfoldable pub with_key_bytes : ℕ → CidEncoding → List ℕ → Map
  with_key_bytes max cid_encoding key_bytes = record {
    by_dcid = λ dcid. none;
    connections = env.slab.empty;
    token_key = key_bytes;
    max_connections = max;
    cid_encoding = cid_encoding;
    scid_source = RetryToken.new key_bytes;
  }

  -- `with_max_connections_and_cid` and `with_max_connections`, over the key that the system's random
  -- source gave; without one the source panics.
  abbrev pub with_max_connections_and_cid : ℕ → CidEncoding → Option (List ℕ) → Option Map
  with_max_connections_and_cid max cid_encoding none = none
  with_max_connections_and_cid max cid_encoding (some key_bytes) =
      some (with_key_bytes max cid_encoding key_bytes)

  abbrev pub with_max_connections : ℕ → Option (List ℕ) → Option Map
  with_max_connections max filled = with_max_connections_and_cid max random filled

  -- `generate_scid`, over what the system's random source gave, and `generate_scid_direct`.
  unfoldable pub map_generate_scid : Map → Option (List ℕ) → Result (List ℕ) Http3NativeError
  map_generate_scid m filled = generate_scid m.cid_encoding filled

  unfoldable pub generate_scid_direct : Map → Map × Result (List ℕ) Http3NativeError
  generate_scid_direct m =
      let (source, scid) = next_scid boring m.scid_source m.cid_encoding in
      (record m { scid_source = source }, scid)

  unfoldable pub route_packet : Map → List ℕ → Option ℕ
  route_packet m dcid = m.by_dcid dcid

  -- `slab.contains(handle)`
  abbrev pub contains : Map → ℕ → Bool
  contains m handle = is_some (slab_get m.connections handle)

  abbrev pub put_dcid : (List ℕ → Option ℕ) → List ℕ → Option ℕ → List ℕ → Option ℕ
  put_dcid by_dcid dcid entry d = if bytes_eq d dcid then entry else by_dcid d

  unfoldable pub add_dcid : Map → ℕ → List ℕ → Map
  add_dcid m handle dcid =
      if contains m handle then record m { by_dcid = put_dcid m.by_dcid dcid (some handle) } else m

  unfoldable pub remove_dcid : Map → List ℕ → Map
  remove_dcid m dcid = record m { by_dcid = put_dcid m.by_dcid dcid none }

  -- `SystemTime::now()` in seconds is the argument `now`.
  unfoldable pub mint_token : Map → SocketAddr → List ℕ → ℕ → List ℕ
  mint_token m peer odcid now =
      let payload = build_token_payload peer now odcid in
      hmac_sha256 boring m.token_key payload ++ payload

  unfoldable pub validate_token : Map → List ℕ → SocketAddr → ℕ → Option (List ℕ)
  validate_token m token peer now =
      if ltb (length token) 32
      then none
      else let payload = drop 32 token in
        if not (hmac_sha256_verify boring m.token_key payload (take 32 token))
        then none
        else parse_token_payload payload peer now token_lifetime_secs

  inserted : Map → List ℕ → C → Map × Result ℕ Http3NativeError
  inserted m scid conn =
      let (connections, handle) = slab_insert m.connections conn in
      (
        record m { connections = connections; by_dcid = put_dcid m.by_dcid scid (some handle) },
        ok handle,
      )

  -- `accept_new`: `accepted` is the connection that quiche makes for `scid`, or its error.
  unfoldable pub accept_new : Map → List ℕ → Result C ℕ → Map × Result ℕ Http3NativeError
  unfolding inserted
  accept_new m scid accepted =
      if leb m.max_connections (slab_len m.connections)
      then (m, err (config (env.full_message m.max_connections)))
      else elim accepted [ ok conn ↦ inserted m scid conn | err e ↦ (m, err (quiche e)) ]

  unfoldable pub get : Map → ℕ → Option C
  get m handle = slab_get m.connections handle

  -- `retain(|_, h| h != handle)`
  abbrev pub retained : (List ℕ → Option ℕ) → ℕ → List ℕ → Option ℕ
  retained by_dcid handle d = elim (by_dcid d) [
    | none ↦ none
    | some h ↦ if h == handle then none else some h
  ]

  unfoldable pub remove : Map → ℕ → Map × Option C
  remove m handle =
      if contains m handle
      then (
        record m {
          connections = slab_remove m.connections handle;
          by_dcid = retained m.by_dcid handle;
        },
        slab_get m.connections handle,
      )
      else (m, none)

  unfoldable pub fill_handles : Map → List ℕ
  fill_handles m = keys m.connections

  unfoldable pub len : Map → ℕ
  len m = slab_len m.connections

  unfoldable pub is_empty : Map → Bool
  is_empty m = slab_len m.connections == 0

  -- The first pass of `drain_closed`: the handles of the closed connections, in order.
  pub closed_among : Map → List ℕ → List ℕ
  closed_among m [] = []
  closed_among m (h ∷ hs) =
      let rest = closed_among m hs in
      elim (slab_get m.connections h) [
        | none ↦ rest
        | some c ↦ if is_closed c then h ∷ rest else rest
      ]

  -- The second pass removes them, and returns what was removed.
  pub remove_all : Map → List ℕ → Map × List (ℕ × C)
  remove_all m [] = (m, [])
  remove_all m (h ∷ hs) =
      let (m', removed) = remove m h in
      let (m'', rest) = remove_all m' hs in
      elim removed [ none ↦ (m'', rest) | some c ↦ (m'', (h, c) ∷ rest) ]

  unfoldable pub drain_closed : Map → Map × List (ℕ × C)
  unfolding closed_among remove_all
  drain_closed m = remove_all m (closed_among m (keys m.connections))
