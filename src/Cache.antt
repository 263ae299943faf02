-- ===== src/Cache.antt =====
-- cache.go: the history cache, a list of elements from the most to the least recently used and an
-- index of them by key. An element is a number, `heap` has its entry, and times are numbers of
-- nanoseconds. A nil cache, which ignores every call, and the keys that callers build are left out.
pub mod Spec
pub mod Agrees
pub mod Invariant
pub mod Refines
pub mod Writes
use arca_go_sdk.Prelude.{
  ℕ, zero, suc, String, List, [], ◌∷◌, Option, none, some, Bool, true, false, ◌&&◌, not,
  if◌then◌else◌, ltb, ◌==◌, update, lookup, put, del, length,
}
use arca_go_sdk.Prelude.Int.{ℤ, pos, ltb_ℤ, ◌+ℤ◌}

pub record Entry (V : Type 0) : Type 0 where
  pub key : String
  pub value : V
  pub expires_at : ℤ

pub record Cache (V : Type 0) : Type 0 where
  pub disabled : Bool
  pub max_entries : ℕ
  pub ttl : ℤ
  pub ll : List ℕ
  pub heap : ℕ → Entry V
  pub items : List (String × ℕ)
  pub next_element : ℕ

-- `ll.Remove(el)`, and the list without its back.
unfoldable pub remove_element : ℕ → List ℕ → List ℕ
remove_element i [] = []
remove_element i (j ∷ ll) = let rest = remove_element i ll in if j == i then rest else j ∷ rest

unfoldable pub drop_back : {A : Type 0} → List A → List A
drop_back [] = []
drop_back (x ∷ []) = []
drop_back (x ∷ (y ∷ xs)) = x ∷ drop_back (y ∷ xs)

unfoldable pub back : List ℕ → Option ℕ
back [] = none
back (i ∷ []) = some i
back (i ∷ (j ∷ ll)) = back (j ∷ ll)

module _ {V : Type 0} where
  -- `newHistoryCache`, for a configuration that is there: a limit of 0 or less and a TTL of 0 are
  -- the defaults.
  unfoldable pub new_history_cache : Bool → ℤ → ℤ → (ℕ → Entry V) → Cache V
  new_history_cache disabled max_entries ttl heap = record {
    disabled = disabled;
    max_entries = limit max_entries;
    ttl = if ltb_ℤ ttl (pos 0) then ttl else if ltb_ℤ (pos 0) ttl then ttl else pos 300000000000;
    ll = [];
    heap = heap;
    items = [];
    next_element = 0;
  }
    where
      limit : ℤ → ℕ
      limit (pos (suc n)) = suc n
      limit _ = 50

  abbrev pub has_expired : Cache V → ℤ → Entry V → Bool
  has_expired c now e = ltb_ℤ (pos 0) c.ttl && ltb_ℤ e.expires_at now

  abbrev pub get_element : String → ℤ → Cache V → Option ℕ → Cache V × Option V
  get_element k now c none = (c, none)
  get_element k now c (some i) =
      if has_expired c now (c.heap i)
      then (record c { ll = remove_element i c.ll; items = del k c.items }, none)
      else (record c { ll = i ∷ remove_element i c.ll }, some (c.heap i).value)

  unfoldable pub get : String → ℤ → Cache V → Cache V × Option V
  get k now c = if c.disabled then (c, none) else get_element k now c (lookup k c.items)

  abbrev pub evict_element : Cache V → Option ℕ → Cache V
  evict_element c none = c
  evict_element c (some i) = record c { ll = drop_back c.ll; items = del (c.heap i).key c.items }

  -- `for c.ll.Len() > c.max`, which removes one element a turn: the length is fuel enough.
  unfoldable pub evict : ℕ → Cache V → Cache V
  evict zero c = c
  evict (suc fuel) c =
      let rest = evict fuel (evict_element c (back c.ll)) in
      if ltb c.max_entries (length c.ll) then rest else c

  abbrev pub set_element : String → V → ℤ → Cache V → Option ℕ → Cache V
  set_element k v now c (some i) = record c {
    ll = i ∷ remove_element i c.ll;
    heap = update c.heap i (record (c.heap i) { value = v; expires_at = now +ℤ c.ttl });
  }
  set_element k v now c none = evict (suc (length c.ll)) (record c {
    ll = c.next_element ∷ c.ll;
    heap = update c.heap c.next_element (record { key = k; value = v; expires_at = now +ℤ c.ttl });
    items = put k c.next_element c.items;
    next_element = suc c.next_element;
  })

  unfoldable pub set : String → V → ℤ → Cache V → Cache V
  unfolding evict
  set k v now c = if c.disabled then c else set_element k v now c (lookup k c.items)

  abbrev pub delete_element : String → Cache V → Option ℕ → Cache V
  delete_element k c none = c
  delete_element k c (some i) = record c { ll = remove_element i c.ll; items = del k c.items }

  unfoldable pub delete : String → Cache V → Cache V
  delete k c = delete_element k c (lookup k c.items)

  unfoldable pub clear : Cache V → Cache V
  clear c = record c { ll = []; items = [] }
