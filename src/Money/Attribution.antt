-- ===== src/Money/Attribution.antt =====
-- money_figure.go: which frames replace others, when the venue's frame is used, and what a change names.
use mathlib.Core.Option.{some-injective}
use arca_go_sdk.Prelude.{
  ℕ, ◌≡◌, ◌≢◌, ◌⊎◌, inl, inr, refl, sym, ap, ◌∙◌, String, List, [], ◌∷◌, Option, none, some, Bool,
  true, false, not, ◌&&◌, if◌then◌else◌, str_eq, eq_iff, All, arith,
}
use arca_go_sdk.Money.Wallet.{
  NativeBalances, TradingAccount, Operation, CashOperation, Snapshot, Revaluation,
}
use arca_go_sdk.Money.Types.{
  Stage, expected, Leg, Figure, any_in_motion, is_expected, WalletMoney, Cause, Change,
}
use arca_go_sdk.Money.Change.{
  retired_legs, legs_of, cash_changes, Touched, Moved, first_moved, money_hits,
  money_operation_that_moved, delta_of, venue_account, change_of, money_change,
}
use arca_go_sdk.Money.Revalue.{Clock, Revalued, revalue_at, money_revalue}

is_expected-stage : (k : Stage) → is_expected k ≡ true → k ≡ expected
is_expected-stage k h = ground arith

All-expected : (ls : List Leg) → any_in_motion ls ≡ false → All (λ l. l.stage ≡ expected) ls
unfolding any_in_motion
All-expected [] h = tt
All-expected (l ∷ ls) h =
    (is_expected-stage l.stage (ground (arith, h)), All-expected ls (ground (arith, h)))

some-ne-none : (b : NativeBalances) → some b ≡ none → ⊥
some-ne-none b e = ground arith

module _ {T : Type 0} (clock : Clock T) where
  -- The time of an account's figure, if it has one that is a time.
  abbrev pub time_of : TradingAccount → Option T
  time_of a = if str_eq a.as_of "" then none else clock.parse a.as_of

  abbrev pub NotOlder : Option T → Revaluation T → Option NativeBalances → Type 0
  NotOlder none r balances = balances ≢ none
  NotOlder (some t) r balances = clock.before r.observed_at t ≡ false

  revalue_at_lem :
      (o : Option T) (r : Revaluation T) (b : Option NativeBalances) (m : String)
      → revalue_at clock o r b ≡ Revalued.micro m
      → (m ≡ r.equity_micro) × NotOlder o r b
  unfolding revalue_at
  revalue_at_lem none r none m h = ground arith
  revalue_at_lem none r (some b) m h = (ground (arith, h), λ e. some-ne-none b e)
  revalue_at_lem (some t) r b m h = ground arith

  guarded :
      (b c : Bool) (w v : String) (x : Revalued clock) (m : String)
      → (if not b then Revalued.reason w else if c then Revalued.reason v else x) ≡ Revalued.micro m
      → (b ≡ true) × (c ≡ false) × (x ≡ Revalued.micro m)
  guarded true false w v x m h = (refl, refl, h)
  guarded true true w v x m h = absurd (ground arith)
  guarded false c w v x m h = absurd (ground arith)

  -- The venue's equity is shown exactly as the frame has it, and only for an account that no
  -- operation holds, toward which nothing is under way, and whose figure is not newer than the frame;
  -- an account whose figure has no time must have balances.
  pub money_revalue_lem :
      (r : Revaluation T) (a : TradingAccount) (f : Figure) (m : String)
      → money_revalue clock r a f ≡ Revalued.micro m
      → (m ≡ r.equity_micro)
        × (a.held_by ≡ "")
        × All (λ l. l.stage ≡ expected) f.arriving
        × NotOlder (time_of a) r a.balances
  unfolding money_revalue
  money_revalue_lem r a f m h =
      let (held, moving, rest) =
        guarded (str_eq a.held_by "") (any_in_motion f.arriving) _ _
          (revalue_at clock (time_of a) r a.balances) m h in
      let q : (m ≡ r.equity_micro) × NotOlder (time_of a) r a.balances =
        revalue_at_lem (time_of a) r a.balances m rest in
      (q.0, (eq_iff a.held_by "").0 held, All-expected f.arriving moving, q.1)

first_moved-hits :
    (legs : List Leg) (changed : List CashOperation) (ops : List Operation) (hits : List Touched)
    (m : Moved)
    → first_moved legs changed ops hits ≡ some m
    → (rest : List Touched) × (hits ≡ m.cause ∷ rest)
unfolding first_moved
first_moved-hits legs changed ops [] m h = absurd (ground arith)
first_moved-hits legs changed ops ((i, k) ∷ hits) m h =
    (hits, ap (λ t. t ∷ hits) (ap (λ (x : Moved). x.cause) (some-injective _ m h)))

first_moved-none :
    (legs : List Leg) (changed : List CashOperation) (ops : List Operation) (hits : List Touched)
    → first_moved legs changed ops hits ≡ none
    → hits ≡ []
unfolding first_moved
first_moved-none legs changed ops [] h = refl
first_moved-none legs changed ops (t ∷ hits) h = absurd (ground arith)

-- Why a change is reported: the first operation that moved, or the venue if none did.
abbrev pub Explained : List Touched → Option String → Option TradingAccount → Change → Type 0
Explained hits delta account c =
    ((i : String) × (k : String) × (rest : List Touched) × (hits ≡ (i, k) ∷ rest)
      × (c.cause ≡ Cause.operation i k))
    ⊎ ((hits ≡ [])
        × (c.cause ≡ Cause.venue)
        × (venue_account account ≡ true)
        × (delta ≡ some c.delta_micro)
        × (c.delta_micro ≢ "0"))

abbrev venue_change : String → ℕ → Change
venue_change d sequence = record {
  cause = Cause.venue;
  delta_micro = d;
  sequence = sequence;
  retired = none;
  operation_status = "";
}

if_some : (b : Bool) (x c : Change) → (if b then some x else none) ≡ some c → (b ≡ true) × (x ≡ c)
if_some true x c h = (refl, some-injective x c h)
if_some false x c h = absurd (ground arith)

nonzero : (d : String) (v : Bool) → not (str_eq d "0") && v ≡ true → (d ≢ "0") × (v ≡ true)
nonzero d v h = ground (arith, eq_iff d "0", h)

explained :
    (hits : List Touched) (delta : Option String) (o : Option Moved) (sequence : ℕ)
    (account : Option TradingAccount) (c : Change)
    → ((m : Moved) → o ≡ some m → (rest : List Touched) × (hits ≡ m.cause ∷ rest))
    → (o ≡ none → hits ≡ [])
    → change_of delta o sequence account ≡ some c
    → (c.sequence ≡ sequence)
      × ((d : String) → delta ≡ some d → c.delta_micro ≡ d)
      × Explained hits delta account c
unfolding change_of
explained hits delta (some m) sequence account c p q h =
    let e : record {
      cause = Cause.operation m.cause.0 m.cause.1;
      delta_micro = elim delta [ none ↦ "0" | some d ↦ d ];
      sequence = sequence;
      retired = m.retired;
      operation_status = m.status;
    }
        ≡ c =
      some-injective _ c h in
    (
      sym (ap (λ (x : Change). x.sequence) e),
      λ d de.
          sym (ap (λ (x : Change). x.delta_micro) e)
          ∙ ap (λ (o : Option String). elim o [ none ↦ "0" | some y ↦ y ]) de,
      inl (m.cause.0, m.cause.1, (p m refl).0, (p m refl).1, sym (ap (λ (x : Change). x.cause) e)),
    )
explained hits none none sequence account c p q h = absurd (ground arith)
explained hits (some d) none sequence account c p q h =
    let (g, e) =
      if_some (not (str_eq d "0") && venue_account account) (venue_change d sequence) c h in
    (
      sym (ap (λ (x : Change). x.sequence) e),
      λ x dx. sym (ap (λ (y : Change). y.delta_micro) e) ∙ some-injective d x dx,
      inr (
        q refl,
        sym (ap (λ (x : Change). x.cause) e),
        (nonzero d (venue_account account) g).1,
        ap (λ (y : Change). some y.delta_micro) e,
        λ z. (nonzero d (venue_account account) g).0 (ap (λ (y : Change). y.delta_micro) e ∙ z),
      ),
    )

-- A change carries the frame's sequence and, where both amounts are integers, their difference. It
-- names the first operation that touched the figure and moved; it names the venue only if there is
-- none, for an account whose balances come from the venue's socket, and if the amount did differ.
pub money_change_lem :
    (previous : Option Figure) (f : Figure) (s : Snapshot) (money : WalletMoney) (sequence : ℕ)
    (account : Option TradingAccount) (c : Change)
    → money_change previous f s money sequence account ≡ some c
    → (c.sequence ≡ sequence)
      × ((d : String) → delta_of f previous ≡ some d → c.delta_micro ≡ d)
      × Explained (money_hits f previous s money) (delta_of f previous) account c
unfolding money_change money_operation_that_moved
money_change_lem previous f s money sequence account c h =
    let retired = retired_legs (legs_of (some f)) (legs_of previous) in
    let changed = cash_changes f.kind money.snapshot.cash.operations s.cash.operations in
    explained (money_hits f previous s money) (delta_of f previous)
      (money_operation_that_moved f previous s money) sequence account c
      (λ m e. first_moved-hits retired changed s.operations (money_hits f previous s money) m e)
      (λ e. first_moved-none retired changed s.operations (money_hits f previous s money) e) h
