-- ===== src/Cache/Spec.antt =====
-- What cache.go promises: a list of entries, the most recently used first, at most one for a key.
use arca_go_sdk.Prelude.{
  ℕ, zero, suc, String, List, [], ◌∷◌, Option, none, some, ◌&&◌, if◌then◌else◌, str_eq,
}
use arca_go_sdk.Prelude.Int.{ℤ, pos, ltb_ℤ, ◌+ℤ◌}
use arca_go_sdk.Cache.{Entry}

unfoldable pub take : {A : Type 0} → ℕ → List A → List A
take zero xs = []
take (suc n) [] = []
take (suc n) (x ∷ xs) = x ∷ take n xs

module _ {V : Type 0} where
  unfoldable pub find : String → List (Entry V) → Option (Entry V)
  find k [] = none
  find k (e ∷ es) = if str_eq e.key k then some e else find k es

  unfoldable pub without : String → List (Entry V) → List (Entry V)
  without k [] = []
  without k (e ∷ es) = let rest = without k es in if str_eq e.key k then rest else e ∷ rest

  abbrev pub spec_found :
      String → ℤ → ℤ → List (Entry V) → Option (Entry V) → List (Entry V) × Option V
  spec_found k ttl now es none = (es, none)
  spec_found k ttl now es (some e) =
      if ltb_ℤ (pos 0) ttl && ltb_ℤ e.expires_at now
      then (without k es, none)
      else (e ∷ without k es, some e.value)

  -- A lookup drops what has expired, and else moves it to the front.
  unfoldable pub spec_get : String → ℤ → ℤ → List (Entry V) → List (Entry V) × Option V
  spec_get k ttl now es = spec_found k ttl now es (find k es)

  -- A write puts the entry in front, in place of an older one of its key, and keeps so many.
  unfoldable pub spec_set : String → V → ℕ → ℤ → ℤ → List (Entry V) → List (Entry V)
  spec_set k v max_entries ttl now es =
      take max_entries (record { key = k; value = v; expires_at = now +ℤ ttl } ∷ without k es)
