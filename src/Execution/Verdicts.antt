-- ===== src/Execution/Verdicts.antt =====
-- operation.go: the execution states against the sizes that they are derived from.
use mathlib.Core.Bool.{◌||◌, false≢true}
use arca_go_sdk.Prelude.{
  ◌≡◌, ◌⊎◌, refl, sym, subst, ap, ◌∙◌, String, Option, none, some, Bool, true, false, not, ◌&&◌,
  inl, inr, Bool-cases, Option-cases, str_eq, arith,
}
use arca_go_sdk.Execution.Decimal.{Decimal, execution_decimal, is_zero, below}
use arca_go_sdk.Execution.Types.{SimOrder}
use arca_go_sdk.Execution.Disposition.{
  Phase, phase_of, under_filled, fully_filled, filled_state, state_of, disposition_at,
  execution_disposition,
}

-- The filled size is positive, and covers the requested one if that is known and positive.
abbrev pub covers : Decimal → Option Decimal → Bool
covers got none = not (is_zero got)
covers got (some requested) = not (is_zero got) && (is_zero requested || not (below got requested))

-- What each state says of the sizes.
pub record Says (state : String) (got : Decimal) (requested : Option Decimal) : Type 0 where
  pub if_filled : str_eq state "filled" ≡ true → covers got requested ≡ true
  pub if_partial : str_eq state "partial" ≡ true → is_zero got ≡ false
  pub if_no_fill : str_eq state "no_fill" ≡ true → is_zero got ≡ true
  pub if_rejected : str_eq state "rejected" ≡ true → is_zero got ≡ true

no_word :
    (state : String) (got : Decimal) (requested : Option Decimal)
    → str_eq state "filled" ≡ false
    → str_eq state "partial" ≡ false
    → str_eq state "no_fill" ≡ false
    → str_eq state "rejected" ≡ false
    → Says state got requested
no_word state got requested a b c d = record {
  if_filled = λ e. absurd (false≢true (sym a ∙ e));
  if_partial = λ e. absurd (false≢true (sym b ∙ e));
  if_no_fill = λ e. absurd (false≢true (sym c ∙ e));
  if_rejected = λ e. absurd (false≢true (sym d ∙ e));
}

filled-Says :
    (got : Decimal) (requested : Option Decimal)
    → covers got requested ≡ true
    → Says "filled" got requested
filled-Says got requested h = record {
  if_filled = λ e. h;
  if_partial = λ e. absurd (false≢true e);
  if_no_fill = λ e. absurd (false≢true e);
  if_rejected = λ e. absurd (false≢true e);
}

partial-Says :
    (got : Decimal) (requested : Option Decimal)
    → is_zero got ≡ false
    → Says "partial" got requested
partial-Says got requested h = record {
  if_filled = λ e. absurd (false≢true e);
  if_partial = λ e. h;
  if_no_fill = λ e. absurd (false≢true e);
  if_rejected = λ e. absurd (false≢true e);
}

none-Says :
    (state : String) (got : Decimal) (requested : Option Decimal)
    → str_eq state "filled" ≡ false
    → str_eq state "partial" ≡ false
    → is_zero got ≡ true
    → Says state got requested
none-Says state got requested a b h = record {
  if_filled = λ e. absurd (false≢true (sym a ∙ e));
  if_partial = λ e. absurd (false≢true (sym b ∙ e));
  if_no_fill = λ e. h;
  if_rejected = λ e. h;
}

fully_filled-Says :
    (got : Decimal) (requested : Option Decimal)
    → (is_zero got ≡ false → covers got requested ≡ true)
    → Says (fully_filled (is_zero got)).0 got requested
unfolding fully_filled
fully_filled-Says got requested c = elim (Bool-cases (is_zero got)) [
  | inl z ↦ rw z (no_word "unknown" got requested refl refl refl refl)
  | inr p ↦ rw p (filled-Says got requested (c p))
]

under_filled-Says :
    (ioc : Bool) (got : Decimal) (requested : Option Decimal)
    → Says (under_filled ioc (is_zero got)).0 got requested
unfolding under_filled
under_filled-Says true got requested = elim (Bool-cases (is_zero got)) [
  | inl z ↦ rw z (none-Says "no_fill" got requested refl refl z)
  | inr p ↦ rw p (partial-Says got requested p)
]
under_filled-Says false got requested = elim (Bool-cases (is_zero got)) [
  | inl z ↦ rw z (no_word "unknown" got requested refl refl refl refl)
  | inr p ↦ rw p (partial-Says got requested p)
]

covers_lem :
    (got r : Decimal)
    → not (is_zero r) && below got r ≡ false
    → is_zero got ≡ false
    → covers got (some r) ≡ true
covers_lem got r h p = ground (arith, h, p)

filled_state-Says :
    (ioc : Bool) (got : Decimal) (requested : Option Decimal)
    → Says (filled_state ioc got requested).0 got requested
unfolding filled_state
filled_state-Says ioc got none = fully_filled-Says got none (λ p. rw p refl)
filled_state-Says ioc got (some r) = elim (Bool-cases (not (is_zero r) && below got r)) [
  | inl y ↦ rw y (under_filled-Says ioc got (some r))
  | inr n ↦ rw n (fully_filled-Says got (some r) (covers_lem got r n))
]

state_of-Says :
    (p : Phase) (ioc : Bool) (got : Decimal) (requested : Option Decimal)
    → Says (state_of p ioc got requested).0 got requested
unfolding state_of
state_of-Says Phase.filled ioc got requested = filled_state-Says ioc got requested
state_of-Says Phase.cancelled ioc got requested = elim (Bool-cases (is_zero got)) [
  | inl z ↦ rw z (none-Says "no_fill" got requested refl refl z)
  | inr p ↦ rw p (partial-Says got requested p)
]
state_of-Says Phase.failed ioc got requested = elim (Bool-cases (is_zero got)) [
  | inl z ↦ rw z (none-Says "rejected" got requested refl refl z)
  | inr p ↦ rw p (partial-Says got requested p)
]
state_of-Says Phase.working ioc got requested = no_word "pending" got requested refl refl refl refl

-- An order whose filled size is no decimal is unknown. Otherwise it is called filled only if something
-- was filled and that is not less than a requested size that is a positive decimal, partial only if
-- something was filled, and no fill or rejected only if nothing was.
pub execution_disposition-Says :
    (order : SimOrder)
    → ((execution_decimal order.filled_size ≡ none)
        × (execution_disposition order ≡ ("unknown", "unknown")))
      ⊎ ((got : Decimal) × (execution_decimal order.filled_size ≡ some got)
          × Says (execution_disposition order).0 got (execution_decimal order.size))
unfolding execution_disposition disposition_at
execution_disposition-Says order = elim (Option-cases (execution_decimal order.filled_size)) [
  | inl n ↦ inl (n, ap (disposition_at order) n)
  | inr (got, e) ↦ inr (
    got,
    e,
    subst (λ o. Says (disposition_at order o).0 got (execution_decimal order.size)) (sym e)
        (state_of-Says (phase_of order.status) (str_eq order.time_in_force "IOC") got
          (execution_decimal order.size)),
  )
]
