-- ===== src/Common/MapLaws.antt =====
-- Laws of the maps over a sound test of the keys.
use http.Common.Bools.{if◌then◌else◌, Bool-cases}
use http.Common.Maps.{find, erase, put}
use http.Common.Lists.{All}
use Prim.Native.Nat.{ℕ, ◌+◌}
use mathlib.Core.Path.{subst, ◌≡◌, refl, ap}
use mathlib.Core.Logic.{inl, inr}
use mathlib.Core.Bool.{Bool, true, false}
use mathlib.Core.Option.{Option, none, some}
use mathlib.Core.List.{List, [], ◌∷◌}
use native.Mathlib.Omega.{arith}

module _ {K V : Type 0} (same : K → K → Bool) where
  pub find-put :
      (k : K) (v : V) (m : List (K × V)) → same k k ≡ true → find same k (put same k v m) ≡ some v
  find-put k v [] s = rw s refl
  find-put k v ((j, w) ∷ m) s = elim (Bool-cases (same k j)) [
    | inl e ↦ rw (e, e) refl
    | inr e ↦ rw (e, e) (find-put k v m s)
  ]

  -- Another key is where it was.
  pub find-put_other :
      (k i : K) (v : V) (m : List (K × V))
      → ((j : K) → same k j ≡ true → same i j ≡ false)
      → same i k ≡ false
      → find same i (put same k v m) ≡ find same i m
  find-put_other k i v [] h s = rw s refl
  find-put_other k i v ((j, w) ∷ m) h s = elim (Bool-cases (same k j)) [
    | inl e ↦ rw (e, h j e) refl
    | inr e ↦ rw e (ap (λ r. if same i j then some w else r) (find-put_other k i v m h s))
  ]

  pub put-All :
      (P : K × V → Type 0) (k : K) (v : V) (m : List (K × V))
      → ((j : K) → P (j, v))
      → All P m
      → All P (put same k v m)
  put-All P k v [] p a = (p k, tt)
  put-All P k v ((j, w) ∷ m) p a = elim (Bool-cases (same k j)) [
    | inl e ↦ rw e (p j, a.1)
    | inr e ↦ rw e (a.0, put-All P k v m p a.1)
  ]

-- A measure of the values, summed over the map.
module _ {K V : Type 0} (same : K → K → Bool) (units : V → ℕ) where
  abbrev pub total : List (K × V) → ℕ
  total [] = 0
  total ((k, v) ∷ m) = units v + total m

  abbrev pub units_of : Option V → ℕ
  units_of none = 0
  units_of (some v) = units v

  pub total-erase :
      (k : K) (m : List (K × V)) → total (erase same k m) + units_of (find same k m) ≡ total m
  total-erase k [] = omega arith
  total-erase k ((j, w) ∷ m) = elim (Bool-cases (same k j)) [
    | inl e ↦ rw e (omega arith)
    | inr e ↦ rw e (omega (arith, total-erase k m))
  ]

  pub total-put :
      (k : K) (v : V) (m : List (K × V))
      → total (put same k v m) + units_of (find same k m) ≡ total m + units v
  total-put k v [] = omega arith
  total-put k v ((j, w) ∷ m) = elim (Bool-cases (same k j)) [
    | inl e ↦ rw e (omega arith)
    | inr e ↦ rw e (omega (arith, total-put k v m))
  ]

module _ {K V : Type 0} (same : K → K → Bool) (P : K × V → Type 0) where
  pub erase-All : (k : K) (m : List (K × V)) → All P m → All P (erase same k m)
  erase-All k [] a = tt
  erase-All k ((j, w) ∷ m) a = elim (Bool-cases (same k j)) [
    | inl e ↦ rw e a.1
    | inr e ↦ rw e (a.0, erase-All k m a.1)
  ]

  -- What is found is one of the entries.
  pub find-All :
      (Q : V → Type 0) (k : K) (v : V) (m : List (K × V))
      → ((e : K × V) → P e → Q e.1)
      → All P m
      → find same k m ≡ some v
      → Q v
  find-All Q k v [] h a e = absurd (cc)
  find-All Q k v ((j, w) ∷ m) h a e = elim (Bool-cases (same k j)) [
    | inl s ↦ let q : some w ≡ some v = rw s at e in let p : w ≡ v = cc in subst Q p (h (j, w) a.0)
    | inr s ↦ find-All Q k v m h a.1 (rw s at e)
  ]
