-- ===== src/ConnectionMap/Tests.antt =====
-- The connection map over a concrete slab: a list of slots, where an insertion takes a new one.
use http.Token.Sound.{MintedFor}
use http.RetryToken.Tests.{flat}
use http.ConnectionMap.Tokens.{validate_sound, validate-mint}
use http.Cid.{random}
use http.RetryToken.{hmac_sha256}
use http.ConnectionMap.Drain.{drain_closed_lem, closed_at, handles, WasClosed}
use http.Token.{to_be_bytes, build_token_payload, v4, SocketAddr}
use http.ConnectionMap.Routes.{
  remove_lem, accept_new-Accepts, with_key_bytes-IsValid, accept_new-IsValid, Accepts, IsValid,
}
use http.ConnectionMap.{
  get, drain_closed, remove, route_packet, accept_new, with_key_bytes, mint_token, validate_token,
  Map, Env,
}
use http.ConnectionMap.Slab.{SlabApi}
use http.Common.{
  subst, ◌∙◌, ap, ◌≢◌, is_some, ◌==◌, elem, ◌<◌, if◌then◌else◌, ◌++◌, length, ◌+◌, replicate,
  IsByte, ◌≡◌, ◌%◌, Option, All, List, none, some, false, refl, ℕ, ◌∷◌, [], ok, arith, zero, suc,
}

-- A connection is a number, and the odd ones are closed.
abbrev slot : List (Option ℕ) → ℕ → Option ℕ
slot [] k = none
slot (o ∷ os) zero = o
slot (o ∷ os) (suc k) = slot os k

abbrev vacate : List (Option ℕ) → ℕ → List (Option ℕ)
vacate [] k = []
vacate (o ∷ os) zero = none ∷ os
vacate (o ∷ os) (suc k) = o ∷ vacate os k

abbrev occupied : List (Option ℕ) → ℕ
occupied [] = 0
occupied (none ∷ os) = occupied os
occupied (some c ∷ os) = occupied os + 1

abbrev keys_from : ℕ → List (Option ℕ) → List ℕ
keys_from i [] = []
keys_from i (none ∷ os) = keys_from (i + 1) os
keys_from i (some c ∷ os) = i ∷ keys_from (i + 1) os

slot-end : (os : List (Option ℕ)) → slot os (length os) ≡ none
slot-end [] = refl
slot-end (o ∷ os) = slot-end os

slot-append :
    (os : List (Option ℕ)) (c k : ℕ)
    → slot (os ++ (some c ∷ [])) k ≡ (if k == length os then some c else slot os k)
slot-append [] c zero = refl
slot-append [] c (suc k) = ground arith
slot-append (o ∷ os) c zero = ground arith
slot-append (o ∷ os) c (suc k) = ground (arith, slot-append os c k)

slot-vacate :
    (os : List (Option ℕ)) (j k : ℕ) → slot (vacate os j) k ≡ (if k == j then none else slot os k)
slot-vacate [] j k = ground arith
slot-vacate (o ∷ os) zero zero = refl
slot-vacate (o ∷ os) zero (suc k) = ground arith
slot-vacate (o ∷ os) (suc j) zero = ground arith
slot-vacate (o ∷ os) (suc j) (suc k) = ground (arith, slot-vacate os j k)

occupied-append : (os : List (Option ℕ)) (c : ℕ) → occupied (os ++ (some c ∷ [])) ≡ occupied os + 1
occupied-append [] c = refl
occupied-append (none ∷ os) c = occupied-append os c
occupied-append (some d ∷ os) c = omega (arith, occupied-append os c)

occupied-vacate :
    (os : List (Option ℕ)) (k c : ℕ) → slot os k ≡ some c → occupied (vacate os k) + 1 ≡ occupied os
occupied-vacate [] k c e = absurd (ground arith)
occupied-vacate (none ∷ os) zero c e = absurd (ground arith)
occupied-vacate (some d ∷ os) zero c e = refl
occupied-vacate (none ∷ os) (suc k) c e = occupied-vacate os k c e
occupied-vacate (some d ∷ os) (suc k) c e = omega (arith, occupied-vacate os k c e)

keys_below : (os : List (Option ℕ)) (i k : ℕ) → k < i → elem k (keys_from i os) ≡ false
keys_below [] i k h = refl
keys_below (none ∷ os) i k h = keys_below os (i + 1) k (omega arith)
keys_below (some c ∷ os) i k h = ground (arith, keys_below os (i + 1) k (omega arith))

keys_slot : (os : List (Option ℕ)) (i k : ℕ) → elem (i + k) (keys_from i os) ≡ is_some (slot os k)
keys_slot [] i k = refl
keys_slot (none ∷ os) i zero = keys_below os (i + 1) (i + 0) (omega arith)
keys_slot (some c ∷ os) i zero = ground arith
keys_slot (none ∷ os) i (suc k) =
    ap (λ n. elem n (keys_from (i + 1) os)) {x = i + suc k} {y = i + 1 + k} (omega arith)
    ∙ keys_slot os (i + 1) k
keys_slot (some c ∷ os) i (suc k) = ground (
  arith,
  ap (λ n. elem n (keys_from (i + 1) os)) {x = i + suc k} {y = i + 1 + k} (omega arith),
  keys_slot os (i + 1) k,
)

keys_all : (os : List (Option ℕ)) (k : ℕ) → elem k (keys_from 0 os) ≡ is_some (slot os k)
keys_all os k =
    ap (λ n. elem n (keys_from 0 os)) {x = k} {y = 0 + k} (omega arith) ∙ keys_slot os 0 k

abbrev slots : SlabApi ℕ
slots = record {
  Slab = List (Option ℕ);
  empty = [];
  get = slot;
  insert = λ os c. (os ++ (some c ∷ []), length os);
  remove = vacate;
  len = occupied;
  keys = keys_from 0;
  get-empty = λ k. refl;
  insert-vacant = λ os c. slot-end os;
  get-insert = slot-append;
  get-remove = slot-vacate;
  len-empty = refl;
  len-insert = occupied-append;
  len-remove = occupied-vacate;
  keys-occupied = keys_all;
}

abbrev env : Env ℕ
env = record {
  is_closed = λ c. c % 2 == 1;
  slab = slots;
  boring = flat;
  full_message = λ max. "connection limit reached";
}

abbrev start : Map env
start = with_key_bytes env 2 random (replicate 32 5)

abbrev one : Map env
one = (accept_new env start (1 ∷ 1 ∷ []) (ok 10)).0

abbrev two : Map env
two = (accept_new env one (2 ∷ 2 ∷ []) (ok 11)).0

two-IsValid : IsValid env two
two-IsValid = accept_new-IsValid env one (2 ∷ 2 ∷ []) (ok 11) (
    accept_new-IsValid env start (1 ∷ 1 ∷ []) (ok 10)
      (with_key_bytes-IsValid env 2 random (replicate 32 5)))

accept_new-Accepts_example :
    Accepts env one (2 ∷ 2 ∷ []) (ok 11) (accept_new env one (2 ∷ 2 ∷ []) (ok 11))
accept_new-Accepts_example = accept_new-Accepts env one (2 ∷ 2 ∷ []) (ok 11)

remove_lem_example :
    ((d : List ℕ) → route_packet env (remove env two 0).0 d ≢ some 0)
    × ((d : List ℕ) (k : ℕ)
        → k ≢ 0
        → route_packet env two d ≡ some k
        → route_packet env (remove env two 0).0 d ≡ some k)
    × ((k : ℕ) → get env (remove env two 0).0 k ≡ (if k == 0 then none else get env two k))
    × ((remove env two 0).1 ≡ get env two 0)
remove_lem_example = remove_lem env two 0 two-IsValid

drain_closed_lem_example :
    All (WasClosed env two) (drain_closed env two).1
    × ((k : ℕ) → elem k (handles env (drain_closed env two).1) ≡ closed_at env two k)
    × ((k : ℕ)
        → get env (drain_closed env two).0 k
          ≡ (if closed_at env two k then none else get env two k))
drain_closed_lem_example = drain_closed_lem env two

abbrev peer : SocketAddr
peer = v4 (10 ∷ 0 ∷ 0 ∷ 1 ∷ []) 4433

validate-mint_example :
    validate_token env two (mint_token env two peer (1 ∷ 2 ∷ []) 1000) peer 1060 ≡ some (1 ∷ 2 ∷ [])
validate-mint_example =
    validate-mint env two peer (1 ∷ 2 ∷ []) 1000 1060 (refl, omega arith) (omega arith)
      (omega arith) (omega arith) (omega arith)

abbrev minted_payload : List ℕ
minted_payload = 4 ∷ 10 ∷ 0 ∷ 0 ∷ 1 ∷ 17 ∷ 81 ∷ 0 ∷ 0 ∷ 0 ∷ 0 ∷ 0 ∷ 0 ∷ 3 ∷ 232 ∷ 2 ∷ 1 ∷ 2 ∷ []

token_bytes : All IsByte (replicate 32 7 ++ minted_payload)
token_bytes = ground arith

token_is_minted : mint_token env two peer (1 ∷ 2 ∷ []) 1000 ≡ replicate 32 7 ++ minted_payload
unfolding mint_token hmac_sha256 build_token_payload to_be_bytes
token_is_minted = refl

validate_sound_example :
    (payload : List ℕ) × (replicate 32 7 ++ minted_payload
      ≡ flat.hmac two.token_key payload ++ payload)
    × MintedFor payload peer 1060 60 (1 ∷ 2 ∷ [])
validate_sound_example =
    validate_sound env two (replicate 32 7 ++ minted_payload) peer 1060 (1 ∷ 2 ∷ []) token_bytes (
      subst (λ t. validate_token env two t peer 1060 ≡ some (1 ∷ 2 ∷ [])) token_is_minted
        validate-mint_example)
