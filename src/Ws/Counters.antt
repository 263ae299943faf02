-- ===== src/Ws/Counters.antt =====
-- websocket.go: the maps that count the owners of a subscription.
use arca_go_sdk.Prelude.{
  ℕ, suc, ◌-◌, ◌≡◌, String, List, [], ◌∷◌, Option, none, some, arith, leb, if◌then◌else◌, str_eq,
  lookup, put, del, lookup-put, lookup-del, ◌≤◌, ltb, inl, inr, contains, keys, contains-keys,
  Option-cases,
}

abbrev pub Counters : Type 0
Counters = List (String × ℕ)

abbrev or_zero : Option ℕ → ℕ
or_zero none = 0
or_zero (some n) = n

-- `refs[k]`, which is 0 for a missing key.
unfoldable pub count : String → Counters → ℕ
count k m = or_zero (lookup k m)

-- `refs[k]++`.
unfoldable pub incr : String → Counters → Counters
incr k m = put k (suc (count k m)) m

-- `if refs[k] <= 1 { delete(refs, k) } else { refs[k]-- }`.
unfoldable pub decr : String → Counters → Counters
decr k m = if leb (count k m) 1 then del k m else put k (count k m - 1) m

-- The loops over the keys of a call.
unfoldable pub incr_all : List String → Counters → Counters
incr_all [] m = m
incr_all (k ∷ ks) m = incr_all ks (incr k m)

unfoldable pub decr_all : List String → Counters → Counters
decr_all [] m = m
decr_all (k ∷ ks) m = decr_all ks (decr k m)

unfoldable pub occurrences : String → List String → ℕ
occurrences k [] = 0
occurrences k (j ∷ js) = let n = occurrences k js in if str_eq j k then suc n else n

-- No key with a count of 0 is kept, so the keys are the subscriptions that have an owner.
abbrev pub IsPositive : Counters → Type 0
IsPositive m = (k : String) (n : ℕ) → lookup k m ≡ some n → 1 ≤ n

pub incr-IsPositive : (k : String) (m : Counters) → IsPositive m → IsPositive (incr k m)
unfolding incr
incr-IsPositive k m p j n h = ground (arith, lookup-put k j (suc (count k m)) m, p j n)

pub decr-IsPositive : (k : String) (m : Counters) → IsPositive m → IsPositive (decr k m)
unfolding decr
decr-IsPositive k m p j n h =
    ground (arith, lookup-put k j (count k m - 1) m, lookup-del k j m, p j n)

pub incr_all-IsPositive :
    (ks : List String) (m : Counters) → IsPositive m → IsPositive (incr_all ks m)
unfolding incr_all
incr_all-IsPositive [] m p = p
incr_all-IsPositive (k ∷ ks) m p = incr_all-IsPositive ks (incr k m) (incr-IsPositive k m p)

pub decr_all-IsPositive :
    (ks : List String) (m : Counters) → IsPositive m → IsPositive (decr_all ks m)
unfolding decr_all
decr_all-IsPositive [] m p = p
decr_all-IsPositive (k ∷ ks) m p = decr_all-IsPositive ks (decr k m) (decr-IsPositive k m p)

pub contains-keys-IsPositive :
    (k : String) (m : Counters) → IsPositive m → contains k (keys m) ≡ ltb 0 (count k m)
unfolding count
contains-keys-IsPositive k m p = elim (Option-cases (lookup k m)) [
  | inl e ↦ ground (arith, contains-keys k m)
  | inr (n, e) ↦ ground (arith, contains-keys k m, p k n e)
]
