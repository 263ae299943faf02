-- ===== src/Projection/Lookup.antt =====
-- accounting_pending.go: what a market has in a ledger, in the executions and in a book.
use mathlib.Core.Bool.{false≢true}
use arca_go_sdk.Prelude.{
  ◌≡◌, refl, sym, ap, ◌∙◌, String, List, [], ◌∷◌, ◌++◌, Option, none, some, Bool, true, false, ◌||◌,
  if◌then◌else◌, All, contains, str_eq, eq_iff, inl, inr, Bool-cases, arith,
}
use arca_go_sdk.Projection.Types.{PendingExecution, SimPosition, ProjectedPosition}
use arca_go_sdk.Projection.Compose.{text_less, pending_of, markets_of}
use arca_go_sdk.Projection.Opened.{pending_markets}

-- The row of a market in a book.
unfoldable pub row_at : String → List ProjectedPosition → Option ProjectedPosition
row_at m [] = none
row_at m (r ∷ rs) = if str_eq r.market m then some r else row_at m rs

-- The ledger's position of a market.
unfoldable pub find_position : String → List SimPosition → Option SimPosition
find_position m [] = none
find_position m (p ∷ ps) = if str_eq p.market m then some p else find_position m ps

-- A ledger that lists each market once.
abbrev pub IsDistinct : List String → Type 0
IsDistinct [] = Unit
IsDistinct (m ∷ ms) = (contains m ms ≡ false) × IsDistinct ms

abbrev pub or_row_else : {A : Type 0} → Option A → Option A → Option A
or_row_else none o = o
or_row_else (some a) o = some a

pub row_at-append :
    (m : String) (rs us : List ProjectedPosition)
    → row_at m (rs ++ us) ≡ or_row_else (row_at m rs) (row_at m us)
unfolding row_at
row_at-append m [] us = refl
row_at-append m (r ∷ rs) us = elim (Bool-cases (str_eq r.market m)) [
  | inl y ↦ rw y refl
  | inr y ↦ rw y (row_at-append m rs us)
]

pub or_row_else-none : {A : Type 0} (o : Option A) → or_row_else o none ≡ o
or_row_else-none none = refl
or_row_else-none (some a) = refl

both_false : (a b : Bool) → (a || b) ≡ false → (a ≡ false) × (b ≡ false)
both_false false b h = (refl, h)
both_false true b h = absurd (false≢true (sym h))

abbrev pub is_some : {A : Type 0} → Option A → Bool
is_some none = false
is_some (some a) = true

pub contains-markets_of :
    (m : String) (ps : List SimPosition) → contains m (markets_of ps) ≡ is_some (find_position m ps)
unfolding contains markets_of find_position
contains-markets_of m [] = refl
contains-markets_of m (p ∷ ps) = elim (Bool-cases (str_eq p.market m)) [
  | inl y ↦ rw y refl
  | inr y ↦ rw y (contains-markets_of m ps)
]

pub find_position-absent :
    (m : String) (ps : List SimPosition)
    → contains m (markets_of ps) ≡ false
    → find_position m ps ≡ none
unfolding contains markets_of find_position
find_position-absent m [] h = refl
find_position-absent m (p ∷ ps) h =
    let q = both_false (str_eq p.market m) (contains m (markets_of ps)) h in
    rw q.0 (find_position-absent m ps q.1)

-- The elements that a test picks, in their order.
unfoldable pub filter : {A : Type 0} → (A → Bool) → List A → List A
filter p [] = []
filter p (a ∷ bs) = let rest = filter p bs in if p a then a ∷ rest else rest

pub pending_of-filter :
    (m : String) (es : List PendingExecution) → pending_of m es ≡ filter (λ e. str_eq e.market m) es
unfolding pending_of filter
pending_of-filter m [] = refl
pending_of-filter m (e ∷ es) = elim (Bool-cases (str_eq e.market m)) [
  | inl y ↦ rw y (ap (λ xs. e ∷ xs) (pending_of-filter m es))
  | inr n ↦ rw n (pending_of-filter m es)
]

pub pending_of-absent :
    (m : String) (es : List PendingExecution)
    → contains m (pending_markets es) ≡ false
    → pending_of m es ≡ []
unfolding contains pending_markets pending_of
pending_of-absent m [] h = refl
pending_of-absent m (e ∷ es) h =
    let q = both_false (str_eq e.market m) (contains m (pending_markets es)) h in
    rw q.0 (pending_of-absent m es q.1)

text_less_irrefl : (s : String) → text_less s s ≡ false
unfolding text_less
text_less_irrefl String.[] = refl
text_less_irrefl (String.◌∷◌ c s) = ground (arith, text_less_irrefl s)

pub absent_above :
    (m : String) (ms : List String)
    → All (λ (u : String). text_less m u ≡ true) ms
    → contains m ms ≡ false
unfolding contains
absent_above m [] h = refl
absent_above m (u ∷ us) h = elim (Bool-cases (str_eq u m)) [
  | inl y ↦ absurd (
      false≢true (
        sym (text_less_irrefl m)
        ∙ ap (λ (t : String). text_less m t) (sym ((eq_iff u m).0 y))
        ∙ h.0))
  | inr y ↦ rw y (absent_above m us h.1)
]
