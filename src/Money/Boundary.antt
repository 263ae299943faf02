-- ===== src/Money/Boundary.antt =====
-- money_figure.go: the legs of the wallet's total, which are the money that crosses its boundary.
use arca_go_sdk.Prelude.{
  ℕ, ◌+◌, ◌≡◌, refl, sym, subst, ◌∙◌, String, List, [], ◌∷◌, Option, none, some, Bool, true, false,
  ◌&&◌, not, inl, inr, Bool-cases, length, length-append, All, All-append, arith,
}
use arca_go_sdk.Money.Wallet.{Moving, Snapshot}
use arca_go_sdk.Money.Types.{
  PartyKind, Stage, reserved, in_transit, expected, listed, crosses_wallet, Leg, Counterparty,
}
use arca_go_sdk.Money.Parties.{money_counterparty}
use arca_go_sdk.Money.Legs.{
  Ends, LegsByEnd, no_legs, add_leg, place_at, money_place, place_stage, place_total, place_legs,
  place_entry, place_entries, money_legs_by_end, departing_leg, arriving_leg, last_operation,
  stage_of,
}
use arca_go_sdk.Money.Placement.{one_if}

-- The other end of the leg lies outside the wallet.
abbrev pub Crosses : Leg → Type 0
Crosses l = crosses_wallet l.counterparty ≡ true

abbrev is_known {ℓ} : {A : Type ℓ} → Option A → Bool
is_known none = false
is_known (some _) = true

-- The entries of a known stage whose source is inside the wallet and whose target is outside.
unfoldable pub leaving : Snapshot → List Moving → ℕ
unfolding money_counterparty crosses_wallet stage_of
leaving s [] = 0
leaving s (e ∷ es) =
    one_if (
      is_known (stage_of e.leg)
      && (crosses_wallet (money_counterparty e.target s)
          && not (crosses_wallet (money_counterparty e.source s))))
    + leaving s es

unfoldable pub entering : Snapshot → List Moving → ℕ
unfolding money_counterparty crosses_wallet stage_of
entering s [] = 0
entering s (e ∷ es) =
    one_if (
      is_known (stage_of e.leg)
      && (crosses_wallet (money_counterparty e.source s)
          && not (crosses_wallet (money_counterparty e.target s))))
    + entering s es

record IsTotal (out into : ℕ) (e : Ends) : Type 0 where
  arriving_crosses : All Crosses e.arriving
  departing_crosses : All Crosses e.departing
  arriving_all : length e.arriving ≡ into
  departing_all : length e.departing ≡ out

place_total-IsTotal :
    (l a : Leg) (c d : Counterparty) (e : Ends) (out into : ℕ)
    → l.counterparty ≡ d
    → a.counterparty ≡ c
    → IsTotal out into e
    → IsTotal
        (one_if (crosses_wallet d && not (crosses_wallet c)) + out)
        (one_if (crosses_wallet c && not (crosses_wallet d)) + into)
        (place_total l a c d e)
unfolding place_total add_leg
place_total-IsTotal l a c d e out into p q t = elim (Bool-cases (crosses_wallet d)) [
  | inl y ↦ elim (Bool-cases (crosses_wallet c)) [
    | inl z ↦
        rw (y, z)
          (record {
            arriving_crosses = t.arriving_crosses;
            departing_crosses = t.departing_crosses;
            arriving_all = omega (arith, t.arriving_all);
            departing_all = omega (arith, t.departing_all);
          })
    | inr z ↦
        rw (y, z)
          (record {
            arriving_crosses = t.arriving_crosses;
            departing_crosses =
                All-append Crosses e.departing (l ∷ []) t.departing_crosses (rw p y, tt);
            arriving_all = omega (arith, t.arriving_all);
            departing_all = omega (arith, t.departing_all, length-append e.departing (l ∷ []));
          })
  ]
  | inr n ↦ elim (Bool-cases (crosses_wallet c)) [
    | inl z ↦
        rw (n, z)
          (record {
            arriving_crosses =
                All-append Crosses e.arriving (a ∷ []) t.arriving_crosses (rw q z, tt);
            departing_crosses = t.departing_crosses;
            arriving_all = omega (arith, t.arriving_all, length-append e.arriving (a ∷ []));
            departing_all = omega (arith, t.departing_all);
          })
    | inr z ↦
        rw (n, z)
          (record {
            arriving_crosses = t.arriving_crosses;
            departing_crosses = t.departing_crosses;
            arriving_all = omega (arith, t.arriving_all);
            departing_all = omega (arith, t.departing_all);
          })
  ]
]

place_at-total :
    (l : Leg) (k : PartyKind) (i : String) (legs : LegsByEnd)
    → (place_at l k i legs).total ≡ legs.total
unfolding place_at
place_at-total l PartyKind.cash i legs = refl
place_at-total l PartyKind.account i legs = refl
place_at-total l PartyKind.external i legs = refl
place_at-total l PartyKind.unknown i legs = refl

money_place-total :
    (l : Leg) (c : Counterparty) (legs : LegsByEnd) → (money_place l c legs).total ≡ legs.total
unfolding money_place
money_place-total l c legs = place_at-total l c.kind c.arca_id legs

place_stage-total :
    (k : Stage) (l a : Leg) (c d : Counterparty) (legs : LegsByEnd)
    → (place_stage k l a c d legs).total ≡ legs.total
unfolding place_stage
place_stage-total reserved l a c d legs =
    money_place-total a d (money_place l c legs) ∙ money_place-total l c legs
place_stage-total in_transit l a c d legs = elim (Bool-cases (listed d)) [
  | inl y ↦ rw y (money_place-total a d legs)
  | inr n ↦ rw n (money_place-total l c legs)
]
place_stage-total expected l a c d legs = money_place-total a d legs

place_legs-IsTotal :
    (l : Leg) (c d : Counterparty) (legs : LegsByEnd) (out into : ℕ)
    → l.counterparty ≡ d
    → IsTotal out into legs.total
    → IsTotal
        (one_if (crosses_wallet d && not (crosses_wallet c)) + out)
        (one_if (crosses_wallet c && not (crosses_wallet d)) + into)
        (place_legs l c d legs).total
unfolding place_legs arriving_leg
place_legs-IsTotal l c d legs out into p t =
    place_total-IsTotal l (arriving_leg l c) c d _ out into p refl
      (subst (IsTotal out into) (sym (place_stage-total l.stage l (arriving_leg l c) c d legs)) t)

IsTotal-cast :
    (out out' into into' : ℕ) (e : Ends)
    → out ≡ out'
    → into ≡ into'
    → IsTotal out into e
    → IsTotal out' into' e
IsTotal-cast out out' into into' e p q t = record {
  arriving_crosses = t.arriving_crosses;
  departing_crosses = t.departing_crosses;
  arriving_all = t.arriving_all ∙ q;
  departing_all = t.departing_all ∙ p;
}

place_entry-IsTotal :
    (s : Snapshot) (e : Moving) (k : Option Stage) (legs : LegsByEnd) (out into : ℕ)
    → IsTotal out into legs.total
    → IsTotal
        (one_if (
            is_known k
            && (crosses_wallet (money_counterparty e.target s)
                && not (crosses_wallet (money_counterparty e.source s))))
          + out)
        (one_if (
            is_known k
            && (crosses_wallet (money_counterparty e.source s)
                && not (crosses_wallet (money_counterparty e.target s))))
          + into)
        (place_entry s e k legs).total
unfolding place_entry departing_leg
place_entry-IsTotal s e none legs out into t =
    IsTotal-cast out _ into _ legs.total (omega arith) (omega arith) t
place_entry-IsTotal s e (some k) legs out into t =
    place_legs-IsTotal
      (departing_leg e k (last_operation e.operation_id s.operations)
        (money_counterparty e.target s))
      (money_counterparty e.source s) (money_counterparty e.target s) legs out into refl t

place_entries-IsTotal :
    (s : Snapshot) (es : List Moving) (legs : LegsByEnd) (out into : ℕ)
    → IsTotal out into legs.total
    → IsTotal (leaving s es + out) (entering s es + into) (place_entries s es legs).total
unfolding place_entries leaving entering
place_entries-IsTotal s [] legs out into t =
    IsTotal-cast out _ into _ legs.total (omega arith) (omega arith) t
place_entries-IsTotal s (e ∷ es) legs out into t =
    IsTotal-cast _ _ _ _ _ (omega arith) (omega arith) (
      place_entries-IsTotal s es (place_entry s e (stage_of e.leg) legs) _ _
        (place_entry-IsTotal s e (stage_of e.leg) legs out into t))

-- On the total a leg arrives for each moving entry from outside the wallet to the inside, and leaves
-- for each from the inside to outside; the other end of each of them lies outside the wallet.
pub money_legs_by_end-total :
    (s : Snapshot)
    → All Crosses (money_legs_by_end s).total.arriving
      × All Crosses (money_legs_by_end s).total.departing
      × (length (money_legs_by_end s).total.arriving ≡ entering s s.moving)
      × (length (money_legs_by_end s).total.departing ≡ leaving s s.moving)
unfolding money_legs_by_end
money_legs_by_end-total s =
    let t : IsTotal (leaving s s.moving + 0) (entering s s.moving + 0)
        (place_entries s s.moving no_legs).total =
      place_entries-IsTotal s s.moving no_legs 0 0 (record {
        arriving_crosses = tt;
        departing_crosses = tt;
        arriving_all = refl;
        departing_all = refl;
      }) in
    (
      t.arriving_crosses,
      t.departing_crosses,
      omega (arith, t.arriving_all),
      omega (arith, t.departing_all),
    )
