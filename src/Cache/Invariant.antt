-- ===== src/Cache/Invariant.antt =====
-- cache.go: how the list, the index and the heap fit together.
use arca_go_sdk.Prelude.{
  ℕ, suc, ◌≤◌, ◌<◌, ◌≡◌, ◌≢◌, refl, subst, sym, ap, ◌∙◌, String, List, [], ◌∷◌, none, some, true,
  false, str_eq, eq_iff, eq_refl, ◌==◌, update, lookup, put, del, lookup-put, lookup-del, arith,
  All, All-map, length, Bool-cases, inl, inr,
}
use arca_go_sdk.Cache.{Entry, Cache, remove_element}
use arca_go_sdk.Cache.Agrees.{
  mem, Distinct, All-remove_element, All-mem, remove_element_apart, Distinct-remove_element,
  mem-remove_element,
}

pub record Core {V : Type 0} (c : Cache V) : Type 0 where
  pub linked : All (λ i. lookup (c.heap i).key c.items ≡ some i) c.ll
  pub indexed :
      (k : String) (i : ℕ) → lookup k c.items ≡ some i → (mem i c.ll ≡ true) × ((c.heap i).key ≡ k)
  pub distinct : Distinct c.ll
  pub bound : All (λ i. i < c.next_element) c.ll

-- And no more elements than the limit.
pub record Inv {V : Type 0} (c : Cache V) : Type 0 where
  pub core : Core c
  pub small : length c.ll ≤ c.max_entries
  pub room : 1 ≤ c.max_entries

All-zip :
    (P Q R : ℕ → Type 0)
    → ((i : ℕ) → P i → Q i → R i)
    → (ll : List ℕ) → All P ll
    → All Q ll
    → All R ll
All-zip P Q R f [] a b = tt
All-zip P Q R f (i ∷ ll) a b = (f i a.0 b.0, All-zip P Q R f ll a.1 b.1)

apart_keys :
    (k l : String) (i j : ℕ) (m : List (String × ℕ))
    → lookup k m ≡ some i
    → lookup l m ≡ some j
    → j ≢ i
    → str_eq k l ≡ false
apart_keys k l i j m e f n = elim (Bool-cases (str_eq k l)) [
  | inr g ↦ g
  | inl g ↦ absurd (ground (arith, e, f, n, (eq_iff k l).0 g))
]

none_apart :
    (k l : String) (j : ℕ) (m : List (String × ℕ))
    → lookup k m ≡ none
    → lookup l m ≡ some j
    → str_eq k l ≡ false
none_apart k l j m e f = elim (Bool-cases (str_eq k l)) [
  | inr g ↦ g
  | inl g ↦ absurd (ground (arith, e, f, (eq_iff k l).0 g))
]

pub update_same : {A : Type 0} (f : ℕ → A) (i : ℕ) (a : A) → update f i a i ≡ a
update_same f i a = let same : (i == i) ≡ true = ground arith in rw same refl

pub update_other : {A : Type 0} (f : ℕ → A) (i j : ℕ) (a : A) → j ≢ i → update f i a j ≡ f j
update_other f i j a n = let other : (i == j) ≡ false = ground (arith, n) in rw other refl

module _ {V : Type 0} (c : Cache V) (v : Core c) where
  -- An element moves to the front.
  pub touch-Core :
      (k : String) (i : ℕ)
      → lookup k c.items ≡ some i
      → Core (record c { ll = i ∷ remove_element i c.ll })
  unfolding mem
  touch-Core k i e =
      let (m, h) = v.indexed k i e in
      record {
        linked = (
          subst (λ x. lookup x c.items ≡ some i) (sym h) e,
          All-remove_element (λ i. lookup (c.heap i).key c.items ≡ some i) i c.ll v.linked,
        );
        indexed = λ j x f. ground (arith, v.indexed j x f, mem-remove_element i x c.ll);
        distinct = (remove_element_apart i c.ll, Distinct-remove_element i c.ll v.distinct);
        bound = (
          All-mem (λ i. i < c.next_element) i c.ll v.bound m,
          All-remove_element (λ i. i < c.next_element) i c.ll v.bound,
        );
      }

  -- An element goes, from whichever place of the list.
  pub drop-Core :
      (k : String) (i : ℕ) (ll : List ℕ)
      → lookup k c.items ≡ some i
      → All (λ j. j ≢ i) ll
      → ((P : ℕ → Type 0) → All P c.ll → All P ll)
      → Distinct ll
      → ((j : ℕ) → j ≢ i → mem j ll ≡ mem j c.ll)
      → Core (record c { ll = ll; items = del k c.items })
  drop-Core k i ll e n keep d m = record {
    linked =
        All-zip (λ j. lookup (c.heap j).key c.items ≡ some j) (λ j. j ≢ i)
          (λ j. lookup (c.heap j).key (del k c.items) ≡ some j)
          (λ j f g.
            lookup-del k (c.heap j).key c.items
            ∙ rw (apart_keys k (c.heap j).key i j c.items e f g) f)
          ll (keep (λ j. lookup (c.heap j).key c.items ≡ some j) v.linked) n;
    indexed = λ j x f.
        ground (arith, f, lookup-del k j c.items, v.indexed j x, v.indexed k i e, m x, eq_iff k j);
    distinct = d;
    bound = keep (λ j. j < c.next_element) v.bound;
  }

  -- A new element in front.
  pub push-Core :
      (k : String) (e : Entry V)
      → e.key ≡ k
      → lookup k c.items ≡ none
      → Core (record c {
        ll = c.next_element ∷ c.ll;
        heap = update c.heap c.next_element e;
        items = put k c.next_element c.items;
        next_element = suc c.next_element;
      })
  unfolding mem
  push-Core k e h none_ =
      let n = c.next_element in
      record {
        linked = (
          rw (update_same c.heap n e, h) (lookup-put k k n c.items ∙ rw (eq_refl k) refl),
          All-zip (λ i. lookup (c.heap i).key c.items ≡ some i) (λ i. i < n)
              (λ i. lookup (update c.heap n e i).key (put k n c.items) ≡ some i)
              (λ i f b. rw (update_other c.heap n i e (λ g. absurd (omega (arith, b, g)))) (
                lookup-put k (c.heap i).key n c.items
                ∙ rw (none_apart k (c.heap i).key i c.items none_ f) f))
              c.ll v.linked v.bound,
        );
        indexed = λ j x f. elim (Bool-cases (str_eq k j)) [
          | inl g ↦
              let same : x ≡ n = ground (arith, f, g, lookup-put k j n c.items) in
              (
                ground (arith, same),
                ap (λ y. (update c.heap n e y).key) same
                    ∙ ap (λ y. y.key) (update_same c.heap n e)
                    ∙ h
                    ∙ (eq_iff k j).0 g,
              )
          | inr g ↦
              let there : lookup j c.items ≡ some x =
                ground (arith, f, g, lookup-put k j n c.items) in
              let (mx, hx) = v.indexed j x there in
              let below : x < n = All-mem (λ i. i < n) x c.ll v.bound mx in
              (
                ground (arith, mx),
                ap (λ y. y.key) (update_other c.heap n x e (λ q. absurd (omega (arith, below, q))))
                    ∙ hx,
              )
        ];
        distinct = (
          All-map (λ i. i < n) (λ i. i ≢ n) (λ i b f. omega (arith, b, f)) c.ll v.bound,
          v.distinct,
        );
        bound = (
          omega arith,
          All-map (λ i. i < n) (λ i. i < suc n) (λ i b. omega (arith, b)) c.ll v.bound,
        );
      }

  updated_key :
      (i : ℕ) (e : Entry V)
      → e.key ≡ (c.heap i).key
      → (j : ℕ) → (update c.heap i e j).key ≡ (c.heap j).key
  updated_key i e h j = elim (Bool-cases (i == j)) [
    | inl f ↦ let same : i ≡ j = ground (arith, f) in rw f (h ∙ ap (λ x. (c.heap x).key) same)
    | inr f ↦ rw f refl
  ]

  -- The entry of an element changes, and not its key.
  pub update-Core :
      (i : ℕ) (e : Entry V) → e.key ≡ (c.heap i).key → Core (record c { heap = update c.heap i e })
  update-Core i e h =
      let key_kept : (j : ℕ) → (update c.heap i e j).key ≡ (c.heap j).key =
        λ j. updated_key i e h j in
      record {
        linked =
            All-map (λ j. lookup (c.heap j).key c.items ≡ some j)
              (λ j. lookup (update c.heap i e j).key c.items ≡ some j)
              (λ j f. subst (λ x. lookup x c.items ≡ some j) (sym (key_kept j)) f) c.ll v.linked;
        indexed = λ k j f. ((v.indexed k j f).0, key_kept j ∙ (v.indexed k j f).1);
        distinct = v.distinct;
        bound = v.bound;
      }
