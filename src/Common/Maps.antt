-- ===== src/Common/Maps.antt =====
-- Maps as lists of entries, a key having one entry: the hash maps of the program. The test of the keys
-- is a parameter.
use http.Common.Bools.{if◌then◌else◌}
use mathlib.Core.Bool.{Bool}
use mathlib.Core.Option.{Option, none, some}
use mathlib.Core.List.{List, [], ◌∷◌}

module _ {ℓ κ} {K : Type ℓ} {V : Type κ} (same : K → K → Bool) where
  -- `HashMap::get`
  abbrev pub find : K → List (K × V) → Option V
  find k [] = none
  find k ((j, v) ∷ m) = if same k j then some v else find k m

  -- `HashMap::remove`, the map that is left.
  abbrev pub erase : K → List (K × V) → List (K × V)
  erase k [] = []
  erase k ((j, v) ∷ m) = let rest = erase k m in if same k j then m else (j, v) ∷ rest

  -- `HashMap::insert`
  abbrev pub put : K → V → List (K × V) → List (K × V)
  put k v [] = (k, v) ∷ []
  put k v ((j, w) ∷ m) = let rest = put k v m in if same k j then (j, v) ∷ m else (j, w) ∷ rest
