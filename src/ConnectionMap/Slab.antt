-- ===== src/ConnectionMap/Slab.antt =====
-- What src/connection_map.rs relies on of the `slab` crate: storage under small integer keys,
-- where an insertion picks a vacant key. `remove` is called on occupied keys only.
use http.Common.{is_some, elem, ◌+◌, some, ◌==◌, if◌then◌else◌, none, ◌≡◌, List, Option, ℕ}

pub record SlabApi (C : Type 0) : Type 1 where
  pub Slab : Type 0
  pub empty : Slab
  pub get : Slab → ℕ → Option C
  pub insert : Slab → C → Slab × ℕ
  pub remove : Slab → ℕ → Slab
  pub len : Slab → ℕ
  pub keys : Slab → List ℕ
  pub get-empty : (k : ℕ) → get empty k ≡ none
  pub insert-vacant : (s : Slab) (c : C) → get s (insert s c).1 ≡ none
  pub get-insert :
      (s : Slab) (c : C) (k : ℕ)
      → get (insert s c).0 k ≡ (if k == (insert s c).1 then some c else get s k)
  pub get-remove : (s : Slab) (j k : ℕ) → get (remove s j) k ≡ (if k == j then none else get s k)
  pub len-empty : len empty ≡ 0
  pub len-insert : (s : Slab) (c : C) → len (insert s c).0 ≡ len s + 1
  pub len-remove : (s : Slab) (k : ℕ) (c : C) → get s k ≡ some c → len (remove s k) + 1 ≡ len s
  pub keys-occupied : (s : Slab) (k : ℕ) → elem k (keys s) ≡ is_some (get s k)
