-- ===== src/Ws/Subscriptions/Candles.antt =====
-- websocket.go: candles and open interest are held in sets, not counted.
use arca_go_sdk.Prelude.{
  ◌≡◌, refl, String, List, [], ◌∷◌, Bool, ◌||◌, arith, contains, lookup, if◌then◌else◌, eq_iff,
}
use arca_go_sdk.Ws.Frames.{IntervalSets}
use arca_go_sdk.Ws.Subscriptions.{add_intervals, or_empty}

-- Whether the set of a coin has the interval.
unfoldable pub holds : String → String → IntervalSets → Bool
holds c iv m = contains iv (or_empty (lookup c m))

pub contains-add_intervals :
    (ivs : List String) (iv : String) (set : List String)
    → contains iv (add_intervals ivs set) ≡ contains iv ivs || contains iv set
unfolding add_intervals contains
contains-add_intervals [] iv set = refl
contains-add_intervals (x ∷ ivs) iv set =
    ground
      (arith, contains-add_intervals ivs iv (if contains x set then set else x ∷ set), eq_iff x iv)
