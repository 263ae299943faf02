-- ===== src/Projection/Book.antt =====
-- accounting_pending.go: the composed book, market by market.
use arca_go_sdk.Prelude.{
  ◌≡◌, refl, sym, ap, ◌∙◌, String, List, [], ◌∷◌, Option, none, some, Bool, true, false, ◌&&◌, not,
  if◌then◌else◌, contains, str_eq, eq_iff, inl, inr, Bool-cases,
}
use arca_go_sdk.Projection.Rational.{Rat, sign, sign_ℤ, is_none}
use arca_go_sdk.Projection.Types.{PendingExecution, SimPosition, ExchangeState, ProjectedPosition}
use arca_go_sdk.Projection.Compose.{
  opened_markets, pending_of, markets_of, ledger_row, or_row, if_open, project, project_all,
  open_all, projected_positions, compose, compose_projected_position, composed_row, Composed, start,
  apply_all, finish,
}
use arca_go_sdk.Projection.Opened.{
  pending_markets, contains-opened_markets, contains-same, IsAscending, opened_markets-IsAscending,
}
use arca_go_sdk.Projection.Lookup.{
  row_at, find_position, filter, pending_of-filter, IsDistinct, or_row_else, row_at-append,
  or_row_else-none, find_position-absent, pending_of-absent, absent_above, contains-markets_of,
  is_some,
}

if_same : {A : Type 0} (b : Bool) (a : A) → (if b then a else a) ≡ a
if_same true a = refl
if_same false a = refl

abbrev pub flattened : Option (Option ProjectedPosition) → Option ProjectedPosition
flattened none = none
flattened (some o) = o

abbrev pub or_ledger : SimPosition → Option (Option ProjectedPosition) → Option ProjectedPosition
or_ledger p none = some (ledger_row p)
or_ledger p (some o) = o

module _ (set_string : String → Option Rat) where
  module _ (m k : String) (ledger : Option SimPosition) (es : List PendingExecution) where
    row_at-finish :
        (o : Option Composed)
        → row_at m (if_open (finish set_string k ledger es o))
          ≡ (if str_eq k m then flattened (finish set_string k ledger es o) else none)
    unfolding row_at composed_row
    row_at-finish none = sym (if_same (str_eq k m) none)
    row_at-finish (some c) = elim (Bool-cases (is_none (sign c.signed))) [
      | inl y ↦ rw y (sym (if_same (str_eq k m) none))
      | inr y ↦ rw y refl
    ]

    row_at-if_open : row_at m (if_open (compose_projected_position set_string k ledger es)) ≡ (
        if str_eq k m then flattened (compose_projected_position set_string k ledger es) else none)
    unfolding compose_projected_position
    row_at-if_open = row_at-finish (compose set_string ledger es)

  module _ (m : String) (p : SimPosition) (es : List PendingExecution) where
    row_at-or_row :
        (o : Option Composed)
        → row_at m (or_row (ledger_row p) (finish set_string p.market (some p) es o)) ≡ (
            if str_eq p.market m
            then or_ledger p (finish set_string p.market (some p) es o)
            else none)
    unfolding row_at composed_row
    row_at-or_row none = refl
    row_at-or_row (some c) = elim (Bool-cases (is_none (sign c.signed))) [
      | inl y ↦ rw y (sym (if_same (str_eq p.market m) none))
      | inr y ↦ rw y refl
    ]

    row_at-compose :
        row_at m
          (or_row (ledger_row p) (compose_projected_position set_string p.market (some p) es))
        ≡ (if str_eq p.market m
            then or_ledger p (compose_projected_position set_string p.market (some p) es)
            else none)
    unfolding compose_projected_position
    row_at-compose = row_at-or_row (compose set_string (some p) es)

  -- What a position shows: itself if no execution is pending there or one cannot be read.
  unfoldable pub position_row : SimPosition → List PendingExecution → Option ProjectedPosition
  position_row p [] = some (ledger_row p)
  position_row p (x ∷ xs) =
      or_ledger p (compose_projected_position set_string p.market (some p) (x ∷ xs))

  row_at-project :
      (m : String) (es : List PendingExecution) (p : SimPosition)
      → row_at m (project set_string es p)
        ≡ (if str_eq p.market m then position_row p (pending_of p.market es) else none)
  unfolding project position_row row_at
  row_at-project m es p =
      elim (pending_of p.market es)
        as (λ q.
          row_at m (elim q [
            | [] ↦ ledger_row p ∷ []
            | x ∷ xs ↦
                or_row (ledger_row p)
                  (compose_projected_position set_string p.market (some p) (x ∷ xs))
          ])
          ≡ (if str_eq p.market m then position_row p q else none)) [
            | [] ↦ refl
            | x ∷ xs ↦ row_at-compose m p (x ∷ xs)
          ]

  abbrev from_ledger : List PendingExecution → Option SimPosition → Option ProjectedPosition
  from_ledger es none = none
  from_ledger es (some p) = position_row p (pending_of p.market es)

  row_at-project_all :
      (m : String) (es : List PendingExecution) (ps : List SimPosition)
      → IsDistinct (markets_of ps)
      → row_at m (project_all set_string es ps) ≡ from_ledger es (find_position m ps)
  unfolding project_all row_at find_position markets_of
  row_at-project_all m es [] d = refl
  row_at-project_all m es (p ∷ ps) d = elim (Bool-cases (str_eq p.market m)) [
    | inl y ↦ rw (row_at-append m (project set_string es p) (project_all set_string es ps)) (
        rw (row_at-project m es p) (
          rw y (
            rw (row_at-project_all m es ps d.1) (
              rw (find_position-absent m ps (contains-same m (markets_of ps) p.market y ∙ d.0))
                (or_row_else-none (position_row p (pending_of p.market es)))))))
    | inr y ↦
        rw (row_at-append m (project set_string es p) (project_all set_string es ps))
          (rw (row_at-project m es p) (rw y (row_at-project_all m es ps d.1)))
  ]

  row_at-open_all :
      (m : String) (es : List PendingExecution) (ms : List String)
      → IsAscending ms
      → row_at m (open_all set_string es ms) ≡ (
          if contains m ms
          then flattened (compose_projected_position set_string m none (pending_of m es))
          else none)
  unfolding open_all row_at contains
  row_at-open_all m es [] h = refl
  row_at-open_all m es (k ∷ ks) h =
      let opened : String → List ProjectedPosition =
        λ t. if_open (compose_projected_position set_string t none (pending_of t es)) in
      elim (Bool-cases (str_eq k m)) [
        | inl y ↦ rw (row_at-append m (opened k) (open_all set_string es ks)) (
            rw (row_at-if_open m k none (pending_of k es)) (
              rw y (
                rw (row_at-open_all m es ks h.1) (
                  rw (contains-same m ks k y ∙ absent_above k ks h.0) (
                    or_row_else-none
                      (flattened (compose_projected_position set_string k none (pending_of k es)))
                    ∙ ap
                        (λ (t : String).
                          flattened
                            (compose_projected_position set_string t none (pending_of t es)))
                        ((eq_iff k m).0 y))))))
        | inr y ↦
            rw (row_at-append m (opened k) (open_all set_string es ks))
              (rw (row_at-if_open m k none (pending_of k es)) (rw y (row_at-open_all m es ks h.1)))
      ]

  -- What a market shows whose executions `at` gives: the row of its position, or that of the executions
  -- alone.
  unfoldable row_by :
      (String → List PendingExecution) → String → ExchangeState → Option ProjectedPosition
  unfolding find_position
  row_by at_ m s = elim (find_position m s.positions) [
    | some p ↦ position_row p (at_ p.market)
    | none ↦ flattened (compose_projected_position set_string m none (at_ m))
  ]

  -- The executions of a market are all those of the frame that name it, in their order.
  unfoldable pub market_row : String → ExchangeState → Option ProjectedPosition
  unfolding row_by filter
  market_row m s = row_by (λ k. filter (λ e. str_eq e.market k) s.accounting_pending) m s

  compose-flat : (m : String) → compose_projected_position set_string m none [] ≡ some none
  unfolding compose_projected_position compose start apply_all composed_row sign_ℤ
  compose-flat m = refl

  joined :
      (m : String) (es : List PendingExecution) (o : Option SimPosition) (listed : Bool)
      → listed ≡ is_some o
      → or_row_else (from_ledger es o) (
          if not listed && contains m (pending_markets es)
          then flattened (compose_projected_position set_string m none (pending_of m es))
          else none)
        ≡ (elim o [
          | some p ↦ position_row p (pending_of p.market es)
          | none ↦ flattened (compose_projected_position set_string m none (pending_of m es))
        ])
  joined m es (some p) listed h = rw h (or_row_else-none (position_row p (pending_of p.market es)))
  joined m es none listed h = rw h (elim (Bool-cases (contains m (pending_markets es))) [
    | inl y ↦ rw y refl
    | inr y ↦ rw y (rw (pending_of-absent m es y) (sym (ap flattened (compose-flat m))))
  ])

  -- The composed book at any market, of a ledger that lists each market once: the row that its position
  -- and all the executions that name the market compose to, which is the ledger's own if there are no
  -- such executions or one cannot be read, and the row of the executions alone where the ledger has no
  -- position. What other markets have does not show in it.
  pub row_at-projected_positions :
      (m : String) (s : ExchangeState)
      → IsDistinct (markets_of s.positions)
      → row_at m (projected_positions set_string s) ≡ market_row m s
  unfolding projected_positions market_row row_by
  row_at-projected_positions m s d =
      let es : List PendingExecution = s.accounting_pending in
      let ms : List String = opened_markets (markets_of s.positions) es in
      row_at-append m (project_all set_string es s.positions) (open_all set_string es ms)
      ∙ rw (row_at-project_all m es s.positions d) (
          rw (row_at-open_all m es ms (opened_markets-IsAscending (markets_of s.positions) es)) (
            rw (contains-opened_markets m (markets_of s.positions) es) (
              joined m es (find_position m s.positions) (contains m (markets_of s.positions))
                (contains-markets_of m s.positions))))
      ∙ ap (λ at_. row_by at_ m s) (λ i k. pending_of-filter k es i)
