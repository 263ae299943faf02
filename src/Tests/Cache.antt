-- ===== src/Tests/Cache.antt =====
-- cache.go at concrete inputs.
use arca_go_sdk.Prelude.{put, ℕ, ◌≡◌, refl, false, lookup}
use arca_go_sdk.Prelude.Int.{pos}
use arca_go_sdk.Cache.{Entry, Cache, new_history_cache, set, evict}
use arca_go_sdk.Cache.Spec.{spec_set}
use arca_go_sdk.Cache.Invariant.{Inv}
use arca_go_sdk.Cache.Refines.{entries}
use arca_go_sdk.Cache.Writes.{set_lem, new_history_cache_lem}

abbrev no_entry : ℕ → Entry ℕ
no_entry i = record { key = ""; value = 0; expires_at = pos 0 }

-- A cache for two entries that holds one, and one that is full.
abbrev empty_cache : Cache ℕ
empty_cache = new_history_cache false (pos 2) (pos 10) no_entry

abbrev full_cache : Cache ℕ
full_cache = set "b" 2 (pos 1) (set "a" 1 (pos 0) empty_cache)

empty_cache-Inv : Inv empty_cache
empty_cache-Inv = (new_history_cache_lem false (pos 2) (pos 10) no_entry).0

full_cache-Inv : Inv full_cache
unfolding new_history_cache set lookup evict put
full_cache-Inv =
    let one = (set_lem empty_cache empty_cache-Inv "a" 1 (pos 0) refl).1 in
    (set_lem (set "a" 1 (pos 0) empty_cache) one "b" 2 (pos 1) refl).1

set_lem_example :
    (entries (set "c" 3 (pos 2) full_cache)
      ≡ spec_set "c" 3 full_cache.max_entries full_cache.ttl (pos 2) (entries full_cache))
    × Inv (set "c" 3 (pos 2) full_cache)
unfolding new_history_cache set lookup evict put
set_lem_example = set_lem full_cache full_cache-Inv "c" 3 (pos 2) refl
