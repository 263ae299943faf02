-- ===== src/Money/Predictions.antt =====
-- money_figure.go: what predictions do to the figures.
use arca_go_sdk.Prelude.{
  ◌≡◌, refl, String, List, [], ◌∷◌, Bool, true, false, ◌&&◌, not, if◌then◌else◌, lookup, put, inl,
  inr, Bool-cases, str_eq, All, All-append,
}
use arca_go_sdk.Money.Wallet.{Snapshot, Prediction}
use arca_go_sdk.Money.Types.{
  Direction, incoming, outgoing, Stage, reserved, PartyKind, Counterparty, crosses_wallet, Leg,
}
use arca_go_sdk.Money.Parties.{money_counterparty}
use arca_go_sdk.Money.Legs.{
  Ends, ends_of, LegsByEnd, no_legs, add_leg, place_at, money_place, place_stage, place_total,
  place_legs, arriving_leg,
}
use arca_go_sdk.Money.OwnLegs.{predicted_leg, money_predicted_legs}
use arca_go_sdk.Money.Added.{is_framed}

-- A leg that is flagged as predicted, and whose request the snapshot does not list.
pub record Fresh (s : Snapshot) (l : Leg) : Type 0 where
  pub flagged : l.predicted ≡ true
  pub is_reserved : l.stage ≡ reserved
  pub not_framed : is_framed l.request_id s.operations ≡ false

if_keeps {ℓ κ} :
    {A : Type ℓ} (P : A → Type κ) (b : Bool) (x y : A) → P x → P y → P (if b then x else y)
if_keeps P true x y p q = p
if_keeps P false x y p q = q

module _ (s : Snapshot) where
  abbrev pub FreshEnds : Ends → Type 0
  FreshEnds e = All (Fresh s) e.arriving × All (Fresh s) e.departing

  abbrev pub FreshAccounts : List (String × Ends) → Type 0
  FreshAccounts [] = Unit
  FreshAccounts ((k, e) ∷ m) = FreshEnds e × FreshAccounts m

  add_leg-FreshEnds :
      (l : Leg) (d : Direction) (e : Ends) → Fresh s l → FreshEnds e → FreshEnds (add_leg l d e)
  unfolding add_leg
  add_leg-FreshEnds l incoming e f (a, b) = (All-append (Fresh s) e.arriving (l ∷ []) a (f, tt), b)
  add_leg-FreshEnds l outgoing e f (a, b) = (a, All-append (Fresh s) e.departing (l ∷ []) b (f, tt))

  lookup-FreshEnds :
      (k : String) (m : List (String × Ends)) → FreshAccounts m → FreshEnds (ends_of (lookup k m))
  unfolding lookup
  lookup-FreshEnds k [] h = (tt, tt)
  lookup-FreshEnds k ((j, e) ∷ m) (a, b) = elim (Bool-cases (str_eq j k)) [
    | inl y ↦ rw y a
    | inr n ↦ rw n (lookup-FreshEnds k m b)
  ]

  put-FreshAccounts :
      (k : String) (e : Ends) (m : List (String × Ends))
      → FreshEnds e
      → FreshAccounts m
      → FreshAccounts (put k e m)
  unfolding put
  put-FreshAccounts k e [] f h = (f, tt)
  put-FreshAccounts k e ((j, x) ∷ m) f (a, b) = elim (Bool-cases (str_eq j k)) [
    | inl y ↦ rw y (f, b)
    | inr n ↦ rw n (a, put-FreshAccounts k e m f b)
  ]

  pub record FreshLegs (legs : LegsByEnd) : Type 0 where
    pub in_cash : FreshEnds legs.cash
    pub in_accounts : FreshAccounts legs.accounts
    pub in_total : FreshEnds legs.total

  place_at-FreshLegs :
      (l : Leg) (k : PartyKind) (i : String) (legs : LegsByEnd)
      → Fresh s l
      → FreshLegs legs
      → FreshLegs (place_at l k i legs)
  unfolding place_at
  place_at-FreshLegs l PartyKind.cash i legs f h = record {
    in_cash = add_leg-FreshEnds l l.direction legs.cash f h.in_cash;
    in_accounts = h.in_accounts;
    in_total = h.in_total;
  }
  place_at-FreshLegs l PartyKind.account i legs f h = record {
    in_cash = h.in_cash;
    in_accounts =
        put-FreshAccounts i (add_leg l l.direction (ends_of (lookup i legs.accounts))) legs.accounts
          (add_leg-FreshEnds l l.direction (ends_of (lookup i legs.accounts)) f
            (lookup-FreshEnds i legs.accounts h.in_accounts))
          h.in_accounts;
    in_total = h.in_total;
  }
  place_at-FreshLegs l PartyKind.external i legs f h = h
  place_at-FreshLegs l PartyKind.unknown i legs f h = h

  -- A prediction's legs are reserved, so only that branch of the switch is taken.
  place_reserved-FreshLegs :
      (l a : Leg) (c d : Counterparty) (k : Stage)
      → k ≡ reserved
      → Fresh s l
      → Fresh s a
      → FreshLegs (place_stage k l a c d no_legs)
  unfolding place_stage money_place
  place_reserved-FreshLegs l a c d k e f g = rw e (
      place_at-FreshLegs a d.kind d.arca_id _ g (
        place_at-FreshLegs l c.kind c.arca_id no_legs f
          (record { in_cash = (tt, tt); in_accounts = tt; in_total = (tt, tt) })))

  place_total-FreshEnds :
      (l a : Leg) (c d : Counterparty) (e : Ends)
      → Fresh s l
      → Fresh s a
      → FreshEnds e
      → FreshEnds (place_total l a c d e)
  unfolding place_total
  place_total-FreshEnds l a c d e f g h =
      if_keeps FreshEnds (crosses_wallet d && not (crosses_wallet c)) (add_leg l outgoing e)
        (if crosses_wallet c && not (crosses_wallet d) then add_leg a incoming e else e)
        (add_leg-FreshEnds l outgoing e f h)
        (if_keeps FreshEnds (crosses_wallet c && not (crosses_wallet d)) (add_leg a incoming e) e
          (add_leg-FreshEnds a incoming e g h) h)

  pub money_predicted_legs-FreshLegs :
      (p : Prediction)
      → is_framed p.request_id s.operations ≡ false
      → FreshLegs (money_predicted_legs p s)
  unfolding money_predicted_legs place_legs predicted_leg arriving_leg
  money_predicted_legs-FreshLegs p h =
      let c = money_counterparty p.source s in
      let d = money_counterparty p.target s in
      let l = predicted_leg p d in
      let f : Fresh s l = record { flagged = refl; is_reserved = refl; not_framed = h } in
      let g : Fresh s (arriving_leg l c) = record {
        flagged = refl;
        is_reserved = refl;
        not_framed = h;
      } in
      let placed : FreshLegs (place_stage l.stage l (arriving_leg l c) c d no_legs) =
        place_reserved-FreshLegs l (arriving_leg l c) c d l.stage refl f g in
      record {
        in_cash = placed.in_cash;
        in_accounts = placed.in_accounts;
        in_total = place_total-FreshEnds l (arriving_leg l c) c d _ f g placed.in_total;
      }
