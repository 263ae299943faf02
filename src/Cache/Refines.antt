-- ===== src/Cache/Refines.antt =====
-- cache.go: lookups and deletions against the list of entries.
use arca_go_sdk.Prelude.{
  ℕ, ◌≡◌, refl, subst, sym, ap, ◌∙◌, String, List, [], ◌∷◌, Option, none, some, false,
  if◌then◌else◌, lookup, del, map, arith, Bool-cases, Option-cases, inl, inr,
}
use arca_go_sdk.Prelude.Int.{ℤ}
use arca_go_sdk.Cache.{Entry, Cache, remove_element, has_expired, get_element, get, delete, clear}
use arca_go_sdk.Cache.Spec.{find, without, spec_get}
use arca_go_sdk.Cache.Agrees.{
  All-remove_element, remove_element_apart, Distinct-remove_element, mem-remove_element,
  length-remove_element, find-some, find-none, without-none, without-some,
}
use arca_go_sdk.Cache.Invariant.{Inv, touch-Core, drop-Core}

abbrev pub entries : {V : Type 0} → Cache V → List (Entry V)
entries c = map c.heap c.ll

module _ {V : Type 0} (c : Cache V) (v : Inv c) where
  removed-Inv :
      (k : String) (i : ℕ)
      → lookup k c.items ≡ some i
      → Inv (record c { ll = remove_element i c.ll; items = del k c.items })
  removed-Inv k i e = record {
    core =
        drop-Core c v.core k i (remove_element i c.ll) e (remove_element_apart i c.ll)
          (λ P. All-remove_element P i c.ll) (Distinct-remove_element i c.ll v.core.distinct)
          (λ j n. mem-remove_element i j c.ll ∙ ground (arith, n));
    small = omega (arith, (length-remove_element i c.ll).0, v.small);
    room = v.room;
  }

  pub touched-Inv :
      (k : String) (i : ℕ)
      → lookup k c.items ≡ some i
      → Inv (record c { ll = i ∷ remove_element i c.ll })
  touched-Inv k i e = record {
    core = touch-Core c v.core k i e;
    small = ground (arith, (length-remove_element i c.ll).1 (v.core.indexed k i e).0, v.small);
    room = v.room;
  }

  pub without_key :
      (k : String) (i : ℕ)
      → lookup k c.items ≡ some i
      → without k (entries c) ≡ map c.heap (remove_element i c.ll)
  without_key k i e = without-some c.heap c.items k i c.ll v.core.linked e (v.core.indexed k i e).1

  find_key : (k : String) (i : ℕ) → lookup k c.items ≡ some i → find k (entries c) ≡ some (c.heap i)
  find_key k i e =
      find-some c.heap c.items k i c.ll v.core.linked e (v.core.indexed k i e).0
        (v.core.indexed k i e).1

  get_enabled :
      (k : String) (now : ℤ)
      → c.disabled ≡ false
      → get k now c ≡ get_element k now c (lookup k c.items)
  unfolding get
  get_enabled k now on =
      ap (λ b. if b then (c, none) else get_element k now c (lookup k c.items)) on

  -- What a lookup has to do.
  abbrev GetsLike : String → ℤ → Cache V × Option V → Type 0
  GetsLike k now r =
      (entries r.0 ≡ (spec_get k c.ttl now (entries c)).0)
      × (r.1 ≡ (spec_get k c.ttl now (entries c)).1)
      × Inv r.0

  get_element_lem : (k : String) (now : ℤ) → GetsLike k now (get_element k now c (lookup k c.items))
  unfolding spec_get
  get_element_lem k now = elim (Option-cases (lookup k c.items)) [
    | inl e ↦ rw (e, find-none c.heap c.items k c.ll v.core.linked e) (refl, refl, v)
    | inr (i, e) ↦ elim (Bool-cases (has_expired c now (c.heap i))) [
      | inl f ↦ rw (e, find_key k i e, f) (sym (without_key k i e), refl, removed-Inv k i e)
      | inr f ↦
          rw (e, find_key k i e, f)
            (ap (λ es. c.heap i ∷ es) (sym (without_key k i e)), refl, touched-Inv k i e)
    ]
  ]

  -- A lookup in a cache that is not disabled returns the value, and leaves the entries, that the
  -- specification's does: an entry that has expired is dropped, another becomes the most recent; and
  -- the list and the index still fit together.
  pub get_lem :
      (k : String) (now : ℤ)
      → c.disabled ≡ false
      → (entries (get k now c).0 ≡ (spec_get k c.ttl now (entries c)).0)
        × ((get k now c).1 ≡ (spec_get k c.ttl now (entries c)).1)
        × Inv (get k now c).0
  get_lem k now on = subst (GetsLike k now) (sym (get_enabled k now on)) (get_element_lem k now)

  delete_kept : (k : String) → (entries (delete k c) ≡ without k (entries c)) × Inv (delete k c)
  unfolding delete
  delete_kept k = elim (Option-cases (lookup k c.items)) [
    | inl e ↦ rw e (sym (without-none c.heap c.items k c.ll v.core.linked e), v)
    | inr (i, e) ↦ rw e (sym (without_key k i e), removed-Inv k i e)
  ]

  cleared-Inv : Inv (clear c)
  unfolding clear lookup
  cleared-Inv = record {
    core = record {
      linked = tt;
      indexed = λ k i e. absurd (ground (arith, e));
      distinct = tt;
      bound = tt;
    };
    small = omega arith;
    room = v.room;
  }

  -- `delete` takes out the entry of the key and no other, `clear` takes out all, and the list and the
  -- index still fit together after each.
  pub delete_lem :
      (k : String)
      → (entries (delete k c) ≡ without k (entries c))
        × Inv (delete k c)
        × (entries (clear c) ≡ [])
        × Inv (clear c)
  unfolding clear
  delete_lem k = ((delete_kept k).0, (delete_kept k).1, refl, cleared-Inv)
