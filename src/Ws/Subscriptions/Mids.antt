-- ===== src/Ws/Subscriptions/Mids.antt =====
-- websocket.go: the owners of mids, where an owner of all coins outranks the owners of some.
use arca_go_sdk.Prelude.{
  ◌≡◌, refl, String, List, [], ◌∷◌, Option, none, some, Bool, false, ◌||◌, arith, ltb, contains,
  keys, lookup, str_eq,
}
use arca_go_sdk.Ws.Counters.{Counters, count, IsPositive, contains-keys-IsPositive}
use arca_go_sdk.Ws.Frames.{Subscriptions, insert_sorted, sort_strings, is_empty}
use arca_go_sdk.Ws.Subscriptions.{mids_subscription_coins}

contains-insert_sorted :
    (k j : String) (ks : List String)
    → contains j (insert_sorted k ks) ≡ str_eq k j || contains j ks
unfolding insert_sorted contains
contains-insert_sorted k j [] = refl
contains-insert_sorted k j (i ∷ ks) = ground (arith, contains-insert_sorted k j ks)

pub contains-sort_strings :
    (j : String) (ks : List String) → contains j (sort_strings ks) ≡ contains j ks
unfolding sort_strings contains
contains-sort_strings j [] = refl
contains-sort_strings j (k ∷ ks) =
    ground (arith, contains-insert_sorted k j (sort_strings ks), contains-sort_strings j ks)

is_empty-insert_sorted : (k : String) (ks : List String) → is_empty (insert_sorted k ks) ≡ false
unfolding insert_sorted
is_empty-insert_sorted k [] = refl
is_empty-insert_sorted k (i ∷ ks) = ground arith

pub is_empty-sort_strings :
    (k : String) (ks : List String) → is_empty (sort_strings (k ∷ ks)) ≡ false
unfolding sort_strings
is_empty-sort_strings k ks = is_empty-insert_sorted k (sort_strings ks)

-- Whether a coin's mids have an owner.
abbrev pub mids_owned : Subscriptions → String → Bool
mids_owned s c = ltb 0 s.mids_all || ltb 0 (count c s.mids_coins)

-- What the subscription that is asked for is, as the server reads it.
abbrev pub coins_cover : Option (List String) → String → Bool
coins_cover none c = false
coins_cover (some coins) c = is_empty coins || contains c coins

pub coins_cover_lem :
    (s : Subscriptions) (c : String)
    → IsPositive s.mids_coins
    → coins_cover (mids_subscription_coins s) c ≡ mids_owned s c
unfolding mids_subscription_coins count contains keys lookup
coins_cover_lem s c p = by_coins s.mids_coins refl
  where
    by_coins :
        (m : Counters)
        → s.mids_coins ≡ m
        → coins_cover (mids_subscription_coins s) c ≡ mids_owned s c
    by_coins [] e = ground (arith, e)
    by_coins ((k, n) ∷ m) e = ground (
      arith,
      e,
      is_empty-sort_strings k (keys m),
      contains-sort_strings c (k ∷ keys m),
      contains-keys-IsPositive c s.mids_coins p,
    )
