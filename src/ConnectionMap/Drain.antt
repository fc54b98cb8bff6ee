-- ===== src/ConnectionMap/Drain.antt =====
-- `drain_closed` of src/connection_map.rs.
use http.ConnectionMap.{drain_closed, get, remove_all, remove, closed_among, Map, Env}
use http.Common.{
  inr, ◌∙◌, inl, Option-cases, All-mono, is_some, All, true, refl, [], some, arith, false, none,
  ◌==◌, ◌∷◌, if◌then◌else◌, ◌&&◌, ◌≡◌, elem, List, Bool, ℕ,
}

module _ {C : Type 0} (env : Env C) where
  -- Whether a handle holds a closed connection.
  abbrev pub closed_at : Map env → ℕ → Bool
  closed_at m k = elim (get env m k) [ none ↦ false | some c ↦ env.is_closed c ]

  elem-closed_among :
      (m : Map env) (k : ℕ) (hs : List ℕ)
      → elem k (closed_among env m hs) ≡ (elem k hs && closed_at m k)
  unfolding closed_among get
  elem-closed_among m k [] = refl
  elem-closed_among m k (h ∷ hs) = ground (arith, elem-closed_among m k hs)

  get-remove :
      (m : Map env) (h k : ℕ)
      → get env (remove env m h).0 k ≡ (if k == h then none else get env m k)
  unfolding remove get
  get-remove m h k = ground (arith, env.slab.get-remove m.connections h k)

  get-remove_all :
      (m : Map env) (k : ℕ) (hs : List ℕ)
      → get env (remove_all env m hs).0 k ≡ (if elem k hs then none else get env m k)
  unfolding remove_all
  get-remove_all m k [] = refl
  get-remove_all m k (h ∷ hs) =
      ground (arith, get-remove m h k, get-remove_all (remove env m h).0 k hs)

  -- A drained entry is a connection that was closed.
  abbrev pub WasClosed : Map env → ℕ × C → Type 0
  WasClosed m (h, c) = (get env m h ≡ some c) × (env.is_closed c ≡ true)

  abbrev pub handles : List (ℕ × C) → List ℕ
  handles [] = []
  handles ((h, c) ∷ rest) = h ∷ handles rest

  -- What `remove_all` returns: connections that were there, under handles that were asked for.
  abbrev Taken : Map env → List ℕ → ℕ × C → Type 0
  Taken m hs (h, c) = (get env m h ≡ some c) × (elem h hs ≡ true)

  remove-value : (m : Map env) (h : ℕ) → (remove env m h).1 ≡ get env m h
  unfolding remove get
  remove-value m h = ground arith

  Taken-later :
      (m : Map env) (h : ℕ) (hs : List ℕ) (x : ℕ × C)
      → Taken (remove env m h).0 hs x
      → Taken m (h ∷ hs) x
  Taken-later m h hs (j, c) (e, i) = ground (arith, get-remove m h j)

  remove_all-Taken : (m : Map env) (hs : List ℕ) → All (Taken m hs) (remove_all env m hs).1
  unfolding remove_all
  remove_all-Taken m [] = tt
  remove_all-Taken m (h ∷ hs) =
      let later : All (Taken m (h ∷ hs)) (remove_all env (remove env m h).0 hs).1 =
        All-mono _ _ _ (Taken-later m h hs) (remove_all-Taken (remove env m h).0 hs) in
      elim (Option-cases (get env m h)) [
        | inl e ↦ rw (remove-value m h ∙ e, remove_all) later
        | inr (c, e) ↦ rw (remove-value m h ∙ e, remove_all) ((e, ground arith), later)
      ]

  elem-remove_all :
      (m : Map env) (k : ℕ) (hs : List ℕ)
      → elem k (handles (remove_all env m hs).1) ≡ (elem k hs && is_some (get env m k))
  unfolding remove_all
  elem-remove_all m k [] = refl
  elem-remove_all m k (h ∷ hs) =
      ground (arith, remove-value m h, get-remove m h k, elem-remove_all (remove env m h).0 k hs)

  occupied : (m : Map env) (k : ℕ) → elem k (env.slab.keys m.connections) ≡ is_some (get env m k)
  unfolding get
  occupied m k = env.slab.keys-occupied m.connections k

  Taken-WasClosed :
      (m : Map env) (ks : List ℕ) (x : ℕ × C) → Taken m (closed_among env m ks) x → WasClosed m x
  Taken-WasClosed m ks (h, c) (e, i) = ground (arith, elem-closed_among m h ks)

  -- `drain_closed` takes out exactly the closed connections: each entry that it returns was a closed
  -- connection under that handle, every closed one is among them, and afterwards the closed handles
  -- are vacant and all others are as before.
  pub drain_closed_lem :
      (m : Map env)
      → All (WasClosed m) (drain_closed env m).1
        × ((k : ℕ) → elem k (handles (drain_closed env m).1) ≡ closed_at m k)
        × ((k : ℕ)
            → get env (drain_closed env m).0 k ≡ (if closed_at m k then none else get env m k))
  unfolding drain_closed
  drain_closed_lem m = (
    All-mono _ _ _ (λ x t. Taken-WasClosed m (env.slab.keys m.connections) x t)
        (remove_all-Taken m hs),
    λ k. ground (
      arith,
      elem-remove_all m k hs,
      elem-closed_among m k (env.slab.keys m.connections),
      occupied m k,
    ),
    λ k. ground (
      arith,
      get-remove_all m k hs,
      elem-closed_among m k (env.slab.keys m.connections),
      occupied m k,
    ),
  )
    where
      hs : List ℕ
      hs = closed_among env m (env.slab.keys m.connections)
