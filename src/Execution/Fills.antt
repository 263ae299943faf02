-- ===== src/Execution/Fills.antt =====
-- operation.go: the fills of an order, as OnFill and FillSummary find them.
use mathlib.Core.Bool.{◌||◌, false≢true}
use arca_go_sdk.Prelude.{
  ◌≡◌, refl, sym, ◌∙◌, subst, inl, inr, String, List, [], ◌∷◌, Option, none, some, Bool, true,
  false, not, ◌&&◌, if◌then◌else◌, Bool-cases, contains, str_eq, eq_refl, All, arith,
}
use arca_go_sdk.Execution.Types.{SimFill}

unfoldable pub fill_matches : SimFill → String → String → Bool
fill_matches f order_id cloid =
    (not (str_eq f.order_id "") && str_eq f.order_id order_id)
    || (not (str_eq cloid "") && (not (str_eq f.cloid "") && str_eq f.cloid cloid))

unfoldable pub recorded_fill_matches : SimFill → String → String → Bool
recorded_fill_matches f order_id operation_id =
    (not (str_eq f.order_id "") && str_eq f.order_id order_id)
    || (not (str_eq f.order_operation_id "") && str_eq f.order_operation_id operation_id)

unfoldable pub fill_key : SimFill → String
fill_key f = if str_eq f.fill_id "" then f.id else f.fill_id

-- What the subscription queues: no previews.
unfoldable pub queue_fills : List SimFill → List SimFill
queue_fills [] = []
queue_fills (f ∷ fs) = let rest = queue_fills fs in if f.is_optimistic then rest else f ∷ rest

module _ (order_id cloid : String) where
  unfoldable pub is_new : List String → SimFill → Bool
  unfolding fill_matches fill_key contains
  is_new seen f =
      fill_matches f order_id cloid
      && (not (str_eq (fill_key f) "") && not (contains (fill_key f) seen))

  -- The loop over the fills, batch after batch: the keys seen, and the fills handed to the callback.
  unfoldable pub on_fill : List SimFill → List String → List SimFill × List String
  unfolding is_new fill_key
  on_fill [] seen = ([], seen)
  on_fill (f ∷ fs) seen =
      if is_new seen f
      then (f ∷ (on_fill fs (fill_key f ∷ seen)).0, (on_fill fs (fill_key f ∷ seen)).1)
      else on_fill fs seen

  -- Each key once, and none of those seen before.
  abbrev pub Once : List SimFill → List String → Type 0
  Once [] seen = Unit
  Once (f ∷ fs) seen = (contains (fill_key f) seen ≡ false) × Once fs (fill_key f ∷ seen)

  -- The keys of the fills that are handed over.
  unfoldable pub keys_of : List SimFill → List String
  keys_of [] = []
  keys_of (f ∷ fs) = fill_key f ∷ keys_of fs

  -- Each key of a fill of the order is among the keys handed over, if it was not seen before.
  abbrev pub Delivered : List SimFill → List String → List SimFill → Type 0
  Delivered [] seen called = Unit
  Delivered (f ∷ fs) seen called =
      (fill_matches f order_id cloid ≡ true
        → str_eq (fill_key f) "" ≡ false
        → contains (fill_key f) seen ≡ false
        → contains (fill_key f) (keys_of called) ≡ true)
      × Delivered fs seen called

  widen_one :
      (k j : String) (seen out : List String)
      → (contains k (j ∷ seen) ≡ false → contains k out ≡ true)
      → contains k seen ≡ false
      → contains k (j ∷ out) ≡ true
  unfolding contains
  widen_one k j seen out h n = ground (arith, h, n)

  -- One more fill, whose key was not seen.
  widen :
      (f : SimFill) (fs : List SimFill) (seen : List String) (called : List SimFill)
      → Delivered fs (fill_key f ∷ seen) called
      → Delivered fs seen (f ∷ called)
  unfolding keys_of
  widen f [] seen called d = tt
  widen f (g ∷ fs) seen called (d, ds) = (
    λ m k n. widen_one (fill_key g) (fill_key f) seen (keys_of called) (d m k) n,
    widen f fs seen called ds,
  )

  new_parts :
      (seen : List String) (f : SimFill)
      → is_new seen f ≡ true
      → (fill_matches f order_id cloid ≡ true) × (contains (fill_key f) seen ≡ false)
  unfolding is_new
  new_parts seen f h = ground (arith, h)

  old_parts :
      (seen : List String) (f : SimFill)
      → is_new seen f ≡ false
      → fill_matches f order_id cloid ≡ true
      → str_eq (fill_key f) "" ≡ false
      → contains (fill_key f) seen ≡ true
  unfolding is_new
  old_parts seen f h m k = ground (arith, h, m, k)

  contains-cons : (k : String) (seen : List String) → contains k (k ∷ seen) ≡ true
  unfolding contains
  contains-cons k seen = rw (eq_refl k) refl

  abbrev pub Sound : List SimFill → List String → List SimFill × List String → Type 0
  Sound fs seen (called, keys) =
      All (λ f. fill_matches f order_id cloid ≡ true) called
      × Once called seen
      × Delivered fs seen called

  taken-Sound :
      (f : SimFill) (fs : List SimFill) (seen : List String) (r : List SimFill × List String)
      → is_new seen f ≡ true
      → Sound fs (fill_key f ∷ seen) r
      → Sound (f ∷ fs) seen (f ∷ r.0, r.1)
  unfolding keys_of
  taken-Sound f fs seen r y (a, b, d) =
      let p : (fill_matches f order_id cloid ≡ true) × (contains (fill_key f) seen ≡ false) =
        new_parts seen f y in
      (
        (p.0, a),
        (p.1, b),
        ((λ m k n. contains-cons (fill_key f) (keys_of r.0)), widen f fs seen r.0 d),
      )

  -- OnFill hands to the callback only fills of the order and of each key at most one, and none of a key
  -- seen before; and of each key of a fill of the order that was not seen before it hands one over.
  pub on_fill-Sound : (fs : List SimFill) (seen : List String) → Sound fs seen (on_fill fs seen)
  unfolding on_fill
  on_fill-Sound [] seen = (tt, tt, tt)
  on_fill-Sound (f ∷ fs) seen = elim (Bool-cases (is_new seen f)) [
    | inl y ↦
        subst
          (λ b. Sound (f ∷ fs) seen (
            if b
            then (f ∷ (on_fill fs (fill_key f ∷ seen)).0, (on_fill fs (fill_key f ∷ seen)).1)
            else on_fill fs seen))
          (sym y)
          (taken-Sound f fs seen (on_fill fs (fill_key f ∷ seen)) y
            (on_fill-Sound fs (fill_key f ∷ seen)))
    | inr n ↦
        let rest : Sound fs seen (on_fill fs seen) = on_fill-Sound fs seen in
        subst
          (λ b. Sound (f ∷ fs) seen (
            if b
            then (f ∷ (on_fill fs (fill_key f ∷ seen)).0, (on_fill fs (fill_key f ∷ seen)).1)
            else on_fill fs seen))
          (sym n)
          (
            rest.0,
            rest.1,
            ((λ m k u. absurd (false≢true (sym u ∙ old_parts seen f n m k))), rest.2),
          )
  ]

-- FillSummary: the first recorded fill of the operation or of the order.
unfoldable pub fill_summary : List SimFill → String → String → Option SimFill
fill_summary [] operation_id order_id = none
fill_summary (f ∷ fs) operation_id order_id =
    if str_eq f.operation_id operation_id || str_eq f.order_id order_id
    then some f
    else fill_summary fs operation_id order_id
