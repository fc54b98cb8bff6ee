-- ===== src/ConnectionMap/Routes.antt =====
-- Routing stays within the live connections of src/connection_map.rs.
use http.Cid.{CidEncoding}
use http.Error.{quiche, Http3NativeError}
use http.ConnectionMap.{
  route_packet, get, contains, len, remove, accept_new, remove_dcid, add_dcid, with_key_bytes, Map,
  Env,
}
use http.Common.{
  refl, false, dec_le, leb, ◌⊎◌, ◌+◌, bytes_eq, ◌==◌, if◌then◌else◌, ◌≢◌, none, inr, ◌<◌, inl,
  Option-cases, ◌≤◌, true, ok, err, some, Result, arith, ◌≡◌, List, ℕ,
}

not_full : (n max : ℕ) → ¬ (max ≤ n) → leb max n ≡ false
not_full n max h = ground arith

module _ {C : Type 0} (env : Env C) where
  -- Every id is routed to a live connection, and the map is within its limit.
  pub record IsValid (m : Map env) : Type 0 where
    pub live :
        (dcid : List ℕ) (handle : ℕ) → m.by_dcid dcid ≡ some handle → contains env m handle ≡ true
    pub bounded : len env m ≤ m.max_connections

  pub with_key_bytes-IsValid :
      (max : ℕ) (encoding : CidEncoding) (key : List ℕ)
      → IsValid (with_key_bytes env max encoding key)
  unfolding with_key_bytes len
  with_key_bytes-IsValid max encoding key = record {
    live = λ dcid handle e. absurd (cc);
    bounded = omega (arith, env.slab.len-empty);
  }

  -- Adding an id for any handle keeps every id routed to a live connection: one for a vacant handle is
  -- refused.
  pub add_dcid-IsValid :
      (m : Map env) (handle : ℕ) (dcid : List ℕ) → IsValid m → IsValid (add_dcid env m handle dcid)
  unfolding add_dcid len
  add_dcid-IsValid m handle dcid v = record {
    live = λ d h e. ground (arith, v.live d h);
    bounded = ground (arith, v.bounded);
  }

  pub remove_dcid-IsValid :
      (m : Map env) (dcid : List ℕ) → IsValid m → IsValid (remove_dcid env m dcid)
  unfolding remove_dcid len
  remove_dcid-IsValid m dcid v = record {
    live = λ d h e. ground (arith, v.live d h);
    bounded = v.bounded;
  }

  pub accept_new-IsValid :
      (m : Map env) (scid : List ℕ) (accepted : Result C ℕ)
      → IsValid m
      → IsValid (accept_new env m scid accepted).0
  unfolding accept_new len
  accept_new-IsValid m scid (err e) v = record {
    live = λ d h k. ground (arith, v.live d h);
    bounded = ground (arith, v.bounded);
  }
  accept_new-IsValid m scid (ok conn) v = record {
    live = λ d h k. ground (arith, v.live d h, env.slab.get-insert m.connections conn h);
    bounded = ground (arith, v.bounded, env.slab.len-insert m.connections conn);
  }

  pub remove-IsValid : (m : Map env) (handle : ℕ) → IsValid m → IsValid (remove env m handle).0
  unfolding remove len
  remove-IsValid m handle v = record {
    live = λ d h k. ground (arith, v.live d h, env.slab.get-remove m.connections handle h);
    bounded = elim (Option-cases (env.slab.get m.connections handle)) [
      | inl e ↦ ground (arith, v.bounded, e)
      | inr (c, e) ↦ ground (arith, v.bounded, e, env.slab.len-remove m.connections handle c e)
    ];
  }

  -- What `accept_new` does on each outcome.
  abbrev pub Accepts : Map env → List ℕ → Result C ℕ → Map env × Result ℕ Http3NativeError → Type 0
  Accepts m scid (ok conn) (m', ok handle) =
      (len env m < m.max_connections)
      × (get env m handle ≡ none)
      × ((k : ℕ) → get env m' k ≡ (if k == handle then some conn else get env m k))
      × ((d : List ℕ)
          → route_packet env m' d ≡ (if bytes_eq d scid then some handle else route_packet env m d))
      × (len env m' ≡ len env m + 1)
  Accepts m scid (err e) (m', ok handle) = ⊥
  Accepts m scid (ok conn) (m', err e) = (m.max_connections ≤ len env m) × (m' ≡ m)
  Accepts m scid (err q) (m', err e) = ((m.max_connections ≤ len env m) ⊎ (e ≡ quiche q)) × (m' ≡ m)

  -- A connection that quiche accepts gets a vacant handle, under which it is found and to which its
  -- id is routed, everything else being as before; a full map or a refusal by quiche changes
  -- nothing.
  pub accept_new-Accepts :
      (m : Map env) (scid : List ℕ) (accepted : Result C ℕ)
      → Accepts m scid accepted (accept_new env m scid accepted)
  unfolding accept_new len get route_packet
  accept_new-Accepts m scid (err e) = ground arith
  accept_new-Accepts m scid (ok conn) =
      elim (dec_le m.max_connections (env.slab.len m.connections)) [
        | yes full ↦ ground (arith, full)
        | no room ↦ rw (not_full (env.slab.len m.connections) m.max_connections room) (
          omega (arith, room),
          env.slab.insert-vacant m.connections conn,
          env.slab.get-insert m.connections conn,
          (λ d. refl),
          env.slab.len-insert m.connections conn,
        )
      ]

  -- After `remove` no id leads to the handle, which is vacant; other handles, and the ids that lead
  -- to them, are as before.
  pub remove_lem :
      (m : Map env) (handle : ℕ)
      → IsValid m
      → ((d : List ℕ) → route_packet env (remove env m handle).0 d ≢ some handle)
        × ((d : List ℕ) (k : ℕ)
            → k ≢ handle
            → route_packet env m d ≡ some k
            → route_packet env (remove env m handle).0 d ≡ some k)
        × ((k : ℕ)
            → get env (remove env m handle).0 k ≡ (if k == handle then none else get env m k))
        × ((remove env m handle).1 ≡ get env m handle)
  unfolding remove get route_packet
  remove_lem m handle v = (
    λ d e. ground (arith, v.live d handle),
    λ d k ne e. ground arith,
    λ k. ground (arith, env.slab.get-remove m.connections handle k),
    ground arith,
  )
