-- ===== src/Cache/Writes.antt =====
-- cache.go: writes against the list of entries, and new caches.
use arca_go_sdk.Prelude.{
  ℕ, zero, suc, ◌≤◌, ◌<◌, ◌≡◌, ◌≢◌, refl, subst, sym, ap, ◌∙◌, String, [], ◌∷◌, none, some, Bool,
  true, false, if◌then◌else◌, ltb, update, lookup, put, del, map, arith, All, All-map, length,
  Bool-cases, Option-cases, inl, inr,
}
use arca_go_sdk.Prelude.Int.{ℤ, pos, negsuc, ◌+ℤ◌}
use arca_go_sdk.Cache.{
  Entry, Cache, remove_element, drop_back, evict, set_element, set, new_history_cache,
}
use arca_go_sdk.Cache.Spec.{without, spec_set}
use arca_go_sdk.Cache.Agrees.{
  All-drop_back, All-mem, remove_element_apart, Distinct-drop_back, map-drop_back, length-map,
  take_all, take-but_one, back_of, without-none, map-update,
}
use arca_go_sdk.Cache.Invariant.{Core, Inv, drop-Core, push-Core, update-Core, update_same}
use arca_go_sdk.Cache.Refines.{entries, touched-Inv, without_key}

module _ {V : Type 0} (c : Cache V) where
  set_enabled :
      (k : String) (x : V) (now : ℤ)
      → c.disabled ≡ false
      → set k x now c ≡ set_element k x now c (lookup k c.items)
  unfolding set
  set_enabled k x now on = ap (λ b. if b then c else set_element k x now c (lookup k c.items)) on

-- The eviction after a new element.
evict_small : {V : Type 0} (fuel : ℕ) (c : Cache V) → length c.ll ≤ c.max_entries → evict fuel c ≡ c
unfolding evict
evict_small zero c h = refl
evict_small (suc fuel) c h =
    let no_more : ltb c.max_entries (length c.ll) ≡ false = ground (arith, h) in rw no_more refl

-- One element too many: the one at the back goes, and with it the last entry.
evict_one :
    {V : Type 0} (fuel : ℕ) (c : Cache V)
    → Core c
    → length c.ll ≡ suc c.max_entries
    → 1 ≤ c.max_entries
    → Inv (evict (suc fuel) c) × (entries (evict (suc fuel) c) ≡ drop_back (entries c))
unfolding evict
evict_one fuel c v n r =
    let (b, e, m, apart, f, k) = back_of c.ll (omega (arith, n)) v.distinct in
    let d = record c { ll = drop_back c.ll; items = del (c.heap b).key c.items } in
    let there : lookup (c.heap b).key c.items ≡ some b =
      All-mem (λ i. lookup (c.heap i).key c.items ≡ some i) b c.ll v.linked m in
    let fits : length (drop_back c.ll) ≤ c.max_entries = omega (arith, k, n) in
    let more : ltb c.max_entries (length c.ll) ≡ true = ground (arith, n) in
    let evicted : evict (suc fuel) c ≡ d = rw (more, e) (evict_small fuel d fits) in
    let fine : Inv d = record {
      core =
          drop-Core c v (c.heap b).key b (drop_back c.ll) there apart (λ P. All-drop_back P c.ll)
            (Distinct-drop_back c.ll v.distinct) f;
      small = fits;
      room = r;
    } in
    subst (λ x. Inv x × (entries x ≡ drop_back (entries c))) (sym evicted)
      (fine, map-drop_back c.heap c.ll)

module _ {V : Type 0} (c : Cache V) (v : Inv c) (k : String) (x : V) (now : ℤ) where
  abbrev new_entry : Entry V
  new_entry = record { key = k; value = x; expires_at = now +ℤ c.ttl }

  abbrev SetsLike : Cache V → Type 0
  SetsLike d = (entries d ≡ spec_set k x c.max_entries c.ttl now (entries c)) × Inv d

  set_old : (i : ℕ) → lookup k c.items ≡ some i → SetsLike (set_element k x now c (some i))
  unfolding spec_set
  set_old i e =
      let moved = touched-Inv c v k i e in
      let same_key : k ≡ (c.heap i).key = sym (v.core.indexed k i e).1 in
      let written : Entry V = record (c.heap i) { value = x; expires_at = now +ℤ c.ttl } in
      let is_new : written ≡ new_entry =
        ap (λ y. record { key = y; value = x; expires_at = now +ℤ c.ttl }) (sym same_key) in
      let rest =
        map-update c.heap c.items k i written (remove_element i c.ll)
          (remove_element_apart i c.ll) in
      let front : map (update c.heap i written) (i ∷ remove_element i c.ll)
          ≡ new_entry ∷ without k (entries c) =
        ap (λ y. y ∷ map (update c.heap i written) (remove_element i c.ll))
          (update_same c.heap i written ∙ is_new)
        ∙ ap (λ es. new_entry ∷ es) (rest ∙ sym (without_key c v k i e)) in
      let short : length (new_entry ∷ without k (entries c)) ≤ c.max_entries =
        subst (λ es. suc (length es) ≤ c.max_entries) (sym (without_key c v k i e))
          (subst (λ n. suc n ≤ c.max_entries) (sym (length-map c.heap (remove_element i c.ll)))
            moved.small) in
      (
        front ∙ sym (take_all c.max_entries (new_entry ∷ without k (entries c)) short),
        record {
          core =
              update-Core (record c { ll = i ∷ remove_element i c.ll }) moved.core i written refl;
          small = moved.small;
          room = v.room;
        },
      )

  abbrev pushed : Cache V
  pushed = record c {
    ll = c.next_element ∷ c.ll;
    heap = update c.heap c.next_element new_entry;
    items = put k c.next_element c.items;
    next_element = suc c.next_element;
  }

  entries-pushed : lookup k c.items ≡ none → entries pushed ≡ new_entry ∷ without k (entries c)
  entries-pushed e =
      let n = c.next_element in
      let apart : All (λ i. i ≢ n) c.ll =
        All-map (λ i. i < n) (λ i. i ≢ n) (λ i b f. omega (arith, b, f)) c.ll v.core.bound in
      ap (λ y. y ∷ map (update c.heap n new_entry) c.ll) (update_same c.heap n new_entry)
      ∙ ap (λ es. new_entry ∷ es)
          (map-update c.heap c.items k n new_entry c.ll apart
            ∙ sym (without-none c.heap c.items k c.ll v.core.linked e))

  length_kept : lookup k c.items ≡ none → length (without k (entries c)) ≡ length c.ll
  length_kept e =
      ap length (without-none c.heap c.items k c.ll v.core.linked e) ∙ length-map c.heap c.ll

  set_new : lookup k c.items ≡ none → SetsLike (set_element k x now c none)
  unfolding spec_set
  set_new e =
      let core = push-Core c v.core k new_entry refl e in
      let kept = length_kept e in
      elim (Bool-cases (ltb (length c.ll) c.max_entries)) [
        | inl f ↦
            let fits : length pushed.ll ≤ c.max_entries = ground (arith, f) in
            subst SetsLike (sym (evict_small (suc (length c.ll)) pushed fits)) (
              entries-pushed e
                  ∙ sym (
                      take_all c.max_entries (new_entry ∷ without k (entries c))
                        (omega (arith, kept, fits))),
              record { core = core; small = fits; room = v.room },
            )
        | inr f ↦
            let full : length c.ll ≡ c.max_entries = ground (arith, f, v.small) in
            let (inv, es) = evict_one (length c.ll) pushed core (omega (arith, full)) v.room in
            (
              es
                  ∙ ap drop_back (entries-pushed e)
                  ∙ sym
                      (take-but_one c.max_entries new_entry (without k (entries c)) (kept ∙ full)),
              inv,
            )
      ]

  set_element_lem : SetsLike (set_element k x now c (lookup k c.items))
  set_element_lem = elim (Option-cases (lookup k c.items)) [
    | inl e ↦ subst (λ o. SetsLike (set_element k x now c o)) (sym e) (set_new e)
    | inr (i, e) ↦ subst (λ o. SetsLike (set_element k x now c o)) (sym e) (set_old i e)
  ]

  -- A write to a cache that is not disabled leaves the entries that the specification's does: the new
  -- one in front, none other of its key, and of the older ones the most recent, up to the limit; and
  -- the list and the index still fit together.
  pub set_lem :
      c.disabled ≡ false
      → (entries (set k x now c) ≡ spec_set k x c.max_entries c.ttl now (entries c))
        × Inv (set k x now c)
  set_lem on = subst SetsLike (sym (set_enabled c k x now on)) set_element_lem

new_history_cache-Inv :
    {V : Type 0} (disabled : Bool) (max_entries ttl : ℤ) (heap : ℕ → Entry V)
    → Inv (new_history_cache disabled max_entries ttl heap)
unfolding new_history_cache lookup
new_history_cache-Inv disabled (pos zero) ttl heap = record {
  core = record {
    linked = tt;
    indexed = λ k i e. absurd (ground (arith, e));
    distinct = tt;
    bound = tt;
  };
  small = omega arith;
  room = omega arith;
}
new_history_cache-Inv disabled (pos (suc n)) ttl heap = record {
  core = record {
    linked = tt;
    indexed = λ k i e. absurd (ground (arith, e));
    distinct = tt;
    bound = tt;
  };
  small = omega arith;
  room = omega arith;
}
new_history_cache-Inv disabled (negsuc n) ttl heap = record {
  core = record {
    linked = tt;
    indexed = λ k i e. absurd (ground (arith, e));
    distinct = tt;
    bound = tt;
  };
  small = omega arith;
  room = omega arith;
}

-- A new cache is empty, its limit is positive for every configuration, and the list and the index
-- fit together.
pub new_history_cache_lem :
    {V : Type 0} (disabled : Bool) (max_entries ttl : ℤ) (heap : ℕ → Entry V)
    → Inv (new_history_cache disabled max_entries ttl heap)
      × (entries (new_history_cache disabled max_entries ttl heap) ≡ [])
unfolding new_history_cache
new_history_cache_lem disabled max_entries ttl heap =
    (new_history_cache-Inv disabled max_entries ttl heap, refl)
