-- ===== src/Projection/Settles.antt =====
-- accounting_pending.go: the composed row does not depend on how far the ledger has recorded.
use mathlib.Core.Option.{some-injective}
use arca_go_sdk.Prelude.{
  ℕ, zero, suc, ◌*◌, ◌<◌, ◌≡◌, ◌⊎◌, subst, refl, sym, ap, ◌∙◌, String, List, [], ◌∷◌, Option, none,
  some, Bool, true, false, ◌||◌, if◌then◌else◌, str_eq, inl, inr, Bool-cases, arith, trim_space,
}
use arca_go_sdk.Prelude.{to_lower}
use arca_go_sdk.Projection.Rational.{
  Rat, rat_zero, sign, is_none, is_minus, abs, neg, add, rat_decimal,
}
use arca_go_sdk.Projection.Types.{PendingExecution, SimPosition, ProjectedPosition}
use arca_go_sdk.Projection.Compose.{
  Composed, read, start, apply_all, compose, composed_row, compose_projected_position, finish,
  of_side, start_at, signed_size, signed_unaccounted,
}
use arca_go_sdk.Projection.Printed.{Same, sign-same, rat_decimal-same}
use arca_go_sdk.Projection.Totals.{plus_all, total_pending, signed_of, apply_all-total}

-- The side and the size of a row, of which a flat market has none.
abbrev pub side_and_size : Option (Option ProjectedPosition) → Option (Option (String × String))
side_and_size none = none
side_and_size (some none) = some none
side_and_size (some (some row)) = some (some (row.side, row.size))

-- The side and the size that a signed quantity shows.
unfoldable pub shown : Rat → Option (String × String)
unfolding rat_decimal abs
shown r =
    if is_none (sign r)
    then none
    else some ((if is_minus (sign r) then "short" else "long"), rat_decimal (abs r))

abbrev pub plus_ledger : Option Rat → Option Rat → Option Rat
plus_ledger none o = none
plus_ledger (some r) o = plus_all r o

shown-Same : (a b : Rat) → 0 < a.den → 0 < b.den → Same a b → shown a ≡ shown b
unfolding shown
shown-Same a b 0<a 0<b h = rw (sign-same a b 0<a 0<b h) (rw (rat_decimal-same a b 0<a 0<b h) refl)

abbrev pub IsProper : Option Rat → Type 0
IsProper none = Unit
IsProper (some r) = 0 < r.den

positive_product : (a b : ℕ) → 0 < a → 0 < b → 0 < a * b
positive_product (suc a) (suc b) p q = omega arith
positive_product zero b p q = absurd (omega arith)
positive_product (suc a) zero p q = absurd (omega arith)

plus_all-IsProper : (r : Rat) (o : Option Rat) → 0 < r.den → IsProper o → IsProper (plus_all r o)
unfolding add
plus_all-IsProper r none p q = tt
plus_all-IsProper r (some t) p q = positive_product r.den t.den p q

plus_ledger-IsProper : (o u : Option Rat) → IsProper o → IsProper u → IsProper (plus_ledger o u)
plus_ledger-IsProper none u p q = tt
plus_ledger-IsProper (some r) u p q = plus_all-IsProper r u p q

IsProper-if :
    (b : Bool) (o u : Option Rat) → IsProper o → IsProper u → IsProper (if b then o else u)
IsProper-if true o u p q = p
IsProper-if false o u p q = q

step-IsProper :
    (o t : Option Rat)
    → IsProper o
    → IsProper t
    → IsProper (elim o [ none ↦ none | some delta ↦ plus_all delta t ])
step-IsProper none t p q = tt
step-IsProper (some d) t p q = plus_all-IsProper d t p q

module _ (set_string : String → Option Rat) where
  -- What the ledger has of the market, and what it lacks.
  unfoldable pub book : Option SimPosition → List PendingExecution → Option Rat
  unfolding start total_pending
  book ledger es = plus_ledger (signed_of (start set_string ledger)) (total_pending set_string es)

  compose-book :
      (ledger : Option SimPosition) (es : List PendingExecution)
      → signed_of (compose set_string ledger es) ≡ book ledger es
  unfolding compose book
  compose-book ledger es =
      elim (start set_string ledger)
        as (λ o.
          signed_of (elim o [ none ↦ none | some c ↦ apply_all set_string es c ])
          ≡ plus_ledger (signed_of o) (total_pending set_string es)) [
            | none ↦ refl
            | some c ↦ apply_all-total set_string es c
          ]

  module _ (market : String) (ledger : Option SimPosition) (es : List PendingExecution) where
    composed_row-shown :
        (c : Composed)
        → side_and_size (some (composed_row set_string market ledger es c)) ≡ some (shown c.signed)
    unfolding composed_row shown
    composed_row-shown c = elim (Bool-cases (is_none (sign c.signed))) [
      | inl y ↦ rw y refl
      | inr y ↦ rw y refl
    ]

    finish-shown :
        (o : Option Composed) (r : Rat)
        → signed_of o ≡ some r
        → side_and_size (finish set_string market ledger es o) ≡ some (shown r)
    finish-shown none r h = ground arith
    finish-shown (some c) r h =
        composed_row-shown c ∙ ap (λ (t : Rat). some (shown t)) (some-injective c.signed r h)

    row-shown :
        (r : Rat)
        → book ledger es ≡ some r
        → side_and_size (compose_projected_position set_string market ledger es) ≡ some (shown r)
    unfolding compose_projected_position
    row-shown r h = finish-shown (compose set_string ledger es) r (compose-book ledger es ∙ h)

  -- A text that reads as a quantity which is not negative.
  abbrev pub ReadsAs : String → Rat → Type 0
  ReadsAs text q = (set_string (trim_space text) ≡ some q) × (is_minus (sign q) ≡ false)

  -- The quantity that the ledger holds.
  pub data Holds : Option SimPosition → Rat → Type 0 where
    flat : Holds none rat_zero
    short_ :
        (p : SimPosition) (q : Rat)
        → p.side ≡ "short"
        → set_string (trim_space p.size) ≡ some q
        → Holds (some p) (neg q)
    long_ :
        (p : SimPosition) (q : Rat)
        → str_eq p.side "short" ≡ false
        → set_string (trim_space p.size) ≡ some q
        → Holds (some p) q

  -- The sum of what the executions add and take.
  pub data Lacks : List PendingExecution → Rat → Type 0 where
    nothing : Lacks [] rat_zero
    bought :
        (e : PendingExecution) (es : List PendingExecution) (q r : Rat)
        → (to_lower e.side ≡ "buy") ⊎ (to_lower e.side ≡ "long")
        → ReadsAs e.unaccounted_size q
        → Lacks es r
        → Lacks (e ∷ es) (add q r)
    sold :
        (e : PendingExecution) (es : List PendingExecution) (q r : Rat)
        → (to_lower e.side ≡ "sell") ⊎ (to_lower e.side ≡ "short")
        → ReadsAs e.unaccounted_size q
        → Lacks es r
        → Lacks (e ∷ es) (add (neg q) r)

  Holds-start :
      (ledger : Option SimPosition) (h : Rat)
      → Holds ledger h
      → signed_of (start set_string ledger) ≡ some h
  unfolding start read
  Holds-start ledger h flat = refl
  Holds-start ledger h (short_ p q s r) = rw r (rw s refl)
  Holds-start ledger h (long_ p q s r) = rw r (rw s refl)

  bought-signed :
      (e : PendingExecution) (q : Rat)
      → (to_lower e.side ≡ "buy") ⊎ (to_lower e.side ≡ "long")
      → ReadsAs e.unaccounted_size q
      → signed_unaccounted set_string e ≡ some q
  unfolding signed_unaccounted read
  bought-signed e q (inl s) (t, m) = rw t (rw m (rw s refl))
  bought-signed e q (inr s) (t, m) = rw t (rw m (rw s refl))

  sold-signed :
      (e : PendingExecution) (q : Rat)
      → (to_lower e.side ≡ "sell") ⊎ (to_lower e.side ≡ "short")
      → ReadsAs e.unaccounted_size q
      → signed_unaccounted set_string e ≡ some (neg q)
  unfolding signed_unaccounted read
  sold-signed e q (inl s) (t, m) = rw t (rw m (rw s refl))
  sold-signed e q (inr s) (t, m) = rw t (rw m (rw s refl))

  total_pending-cons :
      (e : PendingExecution) (es : List PendingExecution) (d r : Rat)
      → signed_unaccounted set_string e ≡ some d
      → total_pending set_string es ≡ some r
      → total_pending set_string (e ∷ es) ≡ some (add d r)
  unfolding total_pending
  total_pending-cons e es d r s l =
      ap (λ o. elim o [ none ↦ none | some delta ↦ plus_all delta (total_pending set_string es) ]) s
      ∙ ap (plus_all d) l

  Lacks-total :
      (es : List PendingExecution) (o : Rat) → Lacks es o → total_pending set_string es ≡ some o
  unfolding total_pending
  Lacks-total all o nothing = refl
  Lacks-total all o (bought e es q r s t l) =
      total_pending-cons e es q r (bought-signed e q s t) (Lacks-total es r l)
  Lacks-total all o (sold e es q r s t l) =
      total_pending-cons e es (neg q) r (sold-signed e q s t) (Lacks-total es r l)

  Holds-book :
      (ledger : Option SimPosition) (es : List PendingExecution) (h o : Rat)
      → Holds ledger h
      → Lacks es o
      → book ledger es ≡ some (add h o)
  unfolding book
  Holds-book ledger es h o p l = rw (Holds-start ledger h p, Lacks-total es o l) refl

  -- The denominators are positive, as those of a big.Rat are.
  module _ (reads : (t : String) → IsProper (set_string t)) where
    of_side-IsProper :
        (side : String) (o : Option Rat) → IsProper o → IsProper (of_side set_string side o)
    unfolding neg
    of_side-IsProper side none p = tt
    of_side-IsProper side (some r) p =
        IsProper-if (is_minus (sign r)) none (signed_size set_string (to_lower side) r) tt (
          IsProper-if (str_eq (to_lower side) "buy" || str_eq (to_lower side) "long") (some r)
            (if str_eq (to_lower side) "sell" || str_eq (to_lower side) "short"
              then some (neg r)
              else none)
            p
            (IsProper-if (str_eq (to_lower side) "sell" || str_eq (to_lower side) "short")
              (some (neg r)) none p tt))

    total_pending-IsProper : (es : List PendingExecution) → IsProper (total_pending set_string es)
    unfolding total_pending signed_unaccounted read
    total_pending-IsProper [] = omega arith
    total_pending-IsProper (e ∷ es) =
        step-IsProper (signed_unaccounted set_string e) (total_pending set_string es)
          (of_side-IsProper e.side (read set_string e.unaccounted_size)
            (reads (trim_space e.unaccounted_size)))
          (total_pending-IsProper es)

    start_at-IsProper :
        (side entry_price : String) (o : Option Rat)
        → IsProper o
        → IsProper (signed_of (start_at set_string side entry_price o))
    unfolding neg
    start_at-IsProper side entry_price none p = tt
    start_at-IsProper side entry_price (some r) p = elim (Bool-cases (str_eq side "short")) [
      | inl y ↦ rw y p
      | inr y ↦ rw y p
    ]

    start-IsProper : (ledger : Option SimPosition) → IsProper (signed_of (start set_string ledger))
    unfolding start read
    start-IsProper none = omega arith
    start-IsProper (some p) =
        start_at-IsProper p.side p.entry_price (read set_string p.size) (reads (trim_space p.size))

    book-IsProper :
        (ledger : Option SimPosition) (es : List PendingExecution) → IsProper (book ledger es)
    unfolding book
    book-IsProper ledger es =
        plus_ledger-IsProper (signed_of (start set_string ledger)) (total_pending set_string es)
          (start-IsProper ledger) (total_pending-IsProper es)

    -- Two frames of a market, in which the ledger has recorded different parts of what the venue has
    -- executed: the ledger holds `h` in the one and `k` in the other (a short position negative), what
    -- it lacks adds up to `o` and `u` (a buy counts up and a sell down), and `h + o` and `k + u` are the
    -- same value. Then the market composes to flat in both, or to the same side and the same text of
    -- the size. The texts of the quantities are those of big.Rat, whose denominators are positive.
    pub compose_projected_position-settles :
        (market : String) (ledger later : Option SimPosition) (es rest : List PendingExecution)
        (h k o u : Rat)
        → Holds ledger h
        → Holds later k
        → Lacks es o
        → Lacks rest u
        → Same (add h o) (add k u)
        → side_and_size (compose_projected_position set_string market ledger es)
          ≡ side_and_size (compose_projected_position set_string market later rest)
    compose_projected_position-settles market ledger later es rest h k o u p q d e same =
        let b : book ledger es ≡ some (add h o) = Holds-book ledger es h o p d in
        let c : book later rest ≡ some (add k u) = Holds-book later rest k u q e in
        row-shown market ledger es (add h o) b
        ∙ ap some (
            shown-Same (add h o) (add k u) (subst IsProper b (book-IsProper ledger es))
              (subst IsProper c (book-IsProper later rest)) same)
        ∙ sym (row-shown market later rest (add k u) c)
