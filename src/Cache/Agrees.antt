-- ===== src/Cache/Agrees.antt =====
-- cache.go: the list of elements against the list of entries.
use arca_go_sdk.Prelude.{
  ℕ, zero, suc, ◌≤◌, ◌≡◌, ◌≢◌, refl, subst, sym, ap, ◌∙◌, String, List, [], ◌∷◌, none, some, Bool,
  true, false, ◌||◌, if◌then◌else◌, str_eq, eq_iff, ◌==◌, update, lookup, map, arith, All, length,
  Bool-cases, inl, inr,
}
use arca_go_sdk.Cache.{Entry, remove_element, drop_back, back}
use arca_go_sdk.Cache.Spec.{take, find, without}

unfoldable pub mem : ℕ → List ℕ → Bool
mem i [] = false
mem i (j ∷ ll) = (j == i) || mem i ll

abbrev pub Distinct : List ℕ → Type 0
Distinct [] = Unit
Distinct (i ∷ ll) = All (λ j. j ≢ i) ll × Distinct ll

module _ (P : ℕ → Type 0) where
  pub All-remove_element : (i : ℕ) (ll : List ℕ) → All P ll → All P (remove_element i ll)
  unfolding remove_element
  All-remove_element i [] a = tt
  All-remove_element i (j ∷ ll) a = elim (Bool-cases (j == i)) [
    | inl e ↦ rw e (All-remove_element i ll a.1)
    | inr e ↦ rw e (a.0, All-remove_element i ll a.1)
  ]

  pub All-drop_back : (ll : List ℕ) → All P ll → All P (drop_back ll)
  unfolding drop_back
  All-drop_back [] a = tt
  All-drop_back (i ∷ []) a = tt
  All-drop_back (i ∷ (j ∷ ll)) a = (a.0, All-drop_back (j ∷ ll) a.1)

pub All-mem : (P : ℕ → Type 0) (i : ℕ) (ll : List ℕ) → All P ll → mem i ll ≡ true → P i
unfolding mem
All-mem P i [] a m = absurd (ground (arith, m))
All-mem P i (j ∷ ll) a m = elim (Bool-cases (j == i)) [
  | inl e ↦ let same : j ≡ i = ground (arith, e) in subst P same a.0
  | inr e ↦ All-mem P i ll a.1 (ground (arith, m, e))
]

pub remove_element_apart : (i : ℕ) (ll : List ℕ) → All (λ j. j ≢ i) (remove_element i ll)
unfolding remove_element
remove_element_apart i [] = tt
remove_element_apart i (j ∷ ll) = elim (Bool-cases (j == i)) [
  | inl e ↦ rw e (remove_element_apart i ll)
  | inr e ↦ let other : j ≢ i = ground (arith, e) in rw e (other, remove_element_apart i ll)
]

pub Distinct-remove_element : (i : ℕ) (ll : List ℕ) → Distinct ll → Distinct (remove_element i ll)
unfolding remove_element
Distinct-remove_element i [] d = tt
Distinct-remove_element i (j ∷ ll) d = elim (Bool-cases (j == i)) [
  | inl e ↦ rw e (Distinct-remove_element i ll d.1)
  | inr e ↦ rw e (All-remove_element (λ x. x ≢ j) i ll d.0, Distinct-remove_element i ll d.1)
]

pub Distinct-drop_back : (ll : List ℕ) → Distinct ll → Distinct (drop_back ll)
unfolding drop_back
Distinct-drop_back [] d = tt
Distinct-drop_back (i ∷ []) d = tt
Distinct-drop_back (i ∷ (j ∷ ll)) d =
    (All-drop_back (λ x. x ≢ i) (j ∷ ll) d.0, Distinct-drop_back (j ∷ ll) d.1)

pub mem-remove_element :
    (i j : ℕ) (ll : List ℕ) → mem j (remove_element i ll) ≡ (if i == j then false else mem j ll)
unfolding mem remove_element
mem-remove_element i j [] = ground arith
mem-remove_element i j (x ∷ ll) = ground (arith, mem-remove_element i j ll)

pub length-remove_element :
    (i : ℕ) (ll : List ℕ)
    → (length (remove_element i ll) ≤ length ll)
      × (mem i ll ≡ true → suc (length (remove_element i ll)) ≤ length ll)
unfolding mem remove_element
length-remove_element i [] = ground arith
length-remove_element i (x ∷ ll) = ground (arith, length-remove_element i ll)

pub length-drop_back :
    {A : Type 0} (x : A) (xs : List A) → suc (length (drop_back (x ∷ xs))) ≡ length (x ∷ xs)
unfolding drop_back
length-drop_back x [] = refl
length-drop_back x (y ∷ xs) = ap suc (length-drop_back y xs)

pub map-drop_back :
    {A : Type 0} (f : ℕ → A) (ll : List ℕ) → map f (drop_back ll) ≡ drop_back (map f ll)
unfolding drop_back
map-drop_back f [] = refl
map-drop_back f (i ∷ []) = refl
map-drop_back f (i ∷ (j ∷ ll)) = ap (λ xs. f i ∷ xs) (map-drop_back f (j ∷ ll))

pub length-map : {A : Type 0} (f : ℕ → A) (ll : List ℕ) → length (map f ll) ≡ length ll
length-map f [] = refl
length-map f (i ∷ ll) = ap suc (length-map f ll)

pub take_all : {A : Type 0} (n : ℕ) (xs : List A) → length xs ≤ n → take n xs ≡ xs
unfolding take
take_all zero [] h = refl
take_all zero (x ∷ xs) h = absurd (omega (arith, h))
take_all (suc n) [] h = refl
take_all (suc n) (x ∷ xs) h = ap (λ ys. x ∷ ys) (take_all n xs (omega (arith, h)))

pub take-but_one :
    {A : Type 0} (n : ℕ) (x : A) (xs : List A)
    → length xs ≡ n
    → take n (x ∷ xs) ≡ drop_back (x ∷ xs)
unfolding take drop_back
take-but_one zero x [] h = refl
take-but_one zero x (y ∷ xs) h = absurd (omega (arith, h))
take-but_one (suc n) x [] h = absurd (omega (arith, h))
take-but_one (suc n) x (y ∷ xs) h = ap (λ ys. x ∷ ys) (take-but_one n y xs (omega (arith, h)))

-- The element at the back is in the list, and not in what is left.
pub back_lem :
    (i : ℕ) (ll : List ℕ)
    → Distinct (i ∷ ll)
    → (b : ℕ) × (back (i ∷ ll) ≡ some b)
      × (mem b (i ∷ ll) ≡ true)
      × All (λ j. j ≢ b) (drop_back (i ∷ ll))
      × ((j : ℕ) → j ≢ b → mem j (drop_back (i ∷ ll)) ≡ mem j (i ∷ ll))
unfolding back drop_back mem
back_lem i [] d = (i, refl, ground arith, tt, λ j n. ground (arith, n))
back_lem i (x ∷ ll) d =
    let (b, e, m, a, f) = back_lem x ll d.1 in
    (
      b,
      e,
      ground (arith, m),
      (λ h. All-mem (λ j. j ≢ i) b (x ∷ ll) d.0 m (sym h), a),
      λ j n. ground (arith, f j n),
    )

pub back_of :
    (l : List ℕ)
    → 1 ≤ length l
    → Distinct l
    → (b : ℕ) × (back l ≡ some b)
      × (mem b l ≡ true)
      × All (λ j. j ≢ b) (drop_back l)
      × ((j : ℕ) → j ≢ b → mem j (drop_back l) ≡ mem j l)
      × (suc (length (drop_back l)) ≡ length l)
back_of [] n d = absurd (omega (arith, n))
back_of (i ∷ ll) n d =
    let (b, e, m, a, f) = back_lem i ll d in (b, e, m, a, f, length-drop_back i ll)

other_element : (i j : ℕ) → i ≢ j → (i == j) ≡ false
other_element i j n = ground (arith, n)

true≢false : true ≢ false
true≢false e = absurd (ground (arith, e))

module _ {V : Type 0} (heap : ℕ → Entry V) (items : List (String × ℕ)) (k : String) where
  abbrev pub Linked : List ℕ → Type 0
  Linked ll = All (λ i. lookup (heap i).key items ≡ some i) ll

  has_key :
      (j : ℕ)
      → lookup (heap j).key items ≡ some j
      → str_eq (heap j).key k ≡ true
      → lookup k items ≡ some j
  has_key j e f = subst (λ x. lookup x items ≡ some j) ((eq_iff (heap j).key k).0 f) e

  pub find-some :
      (i : ℕ) (ll : List ℕ)
      → Linked ll
      → lookup k items ≡ some i
      → mem i ll ≡ true
      → (heap i).key ≡ k
      → find k (map heap ll) ≡ some (heap i)
  unfolding find mem
  find-some i [] a e m h = absurd (ground (arith, m))
  find-some i (j ∷ ll) a e m h = elim (Bool-cases (str_eq (heap j).key k)) [
    | inl f ↦ let same : i ≡ j = ground (arith, e, has_key j a.0 f) in rw (f, same) refl
    | inr f ↦
        let differs : j ≢ i =
          λ g. true≢false (sym ((eq_iff (heap j).key k).1 (ap (λ x. (heap x).key) g ∙ h)) ∙ f) in
        rw f (find-some i ll a.1 e (ground (arith, m, differs)) h)
  ]

  pub find-none : (ll : List ℕ) → Linked ll → lookup k items ≡ none → find k (map heap ll) ≡ none
  unfolding find
  find-none [] a e = refl
  find-none (j ∷ ll) a e = elim (Bool-cases (str_eq (heap j).key k)) [
    | inl f ↦ absurd (ground (arith, e, has_key j a.0 f))
    | inr f ↦ rw f (find-none ll a.1 e)
  ]

  pub without-none :
      (ll : List ℕ) → Linked ll → lookup k items ≡ none → without k (map heap ll) ≡ map heap ll
  unfolding without
  without-none [] a e = refl
  without-none (j ∷ ll) a e = elim (Bool-cases (str_eq (heap j).key k)) [
    | inl f ↦ absurd (ground (arith, e, has_key j a.0 f))
    | inr f ↦ rw f (ap (λ es. heap j ∷ es) (without-none ll a.1 e))
  ]

  pub without-some :
      (i : ℕ) (ll : List ℕ)
      → Linked ll
      → lookup k items ≡ some i
      → (heap i).key ≡ k
      → without k (map heap ll) ≡ map heap (remove_element i ll)
  unfolding without remove_element
  without-some i [] a e h = refl
  without-some i (j ∷ ll) a e h = elim (Bool-cases (str_eq (heap j).key k)) [
    | inl f ↦
        let same : (j == i) ≡ true = ground (arith, e, has_key j a.0 f) in
        rw (f, same) (without-some i ll a.1 e h)
    | inr f ↦
        let differs : (j == i) ≡ false =
          other_element j i (λ g.
            true≢false (sym ((eq_iff (heap j).key k).1 (ap (λ x. (heap x).key) g ∙ h)) ∙ f)) in
        rw (f, differs) (ap (λ es. heap j ∷ es) (without-some i ll a.1 e h))
  ]

  -- An entry that is not of this list may change.
  pub map-update :
      (i : ℕ) (x : Entry V) (ll : List ℕ)
      → All (λ j. j ≢ i) ll
      → map (update heap i x) ll ≡ map heap ll
  map-update i x [] a = refl
  map-update i x (j ∷ ll) a =
      let other : (i == j) ≡ false = other_element i j (λ g. a.0 (sym g)) in
      rw other (ap (λ es. heap j ∷ es) (map-update i x ll a.1))
