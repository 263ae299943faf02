-- ===== src/Money/Extension.antt =====
-- money_figure.go: the figures with predictions against those without.
use mathlib.Core.List.{append_assoc, append-nil}
use arca_go_sdk.Prelude.{
  ◌≡◌, refl, sym, ap, ◌∙◌, String, List, [], ◌∷◌, ◌++◌, Option, none, some, false, ltb, lookup, put,
  lookup-put, inl, inr, Bool-cases, str_eq, eq_iff, All, All-append, arith,
}
use arca_go_sdk.Money.Wallet.{Snapshot, Prediction}
use arca_go_sdk.Money.Types.{Change, Leg, Figure, WalletMoney, account_of}
use arca_go_sdk.Money.Legs.{Ends, LegsByEnd}
use arca_go_sdk.Money.OwnLegs.{money_predicted_legs}
use arca_go_sdk.Money.Added.{
  Figures, append_ends, append_at, append_accounts, append_legs, is_framed, is_dropped,
  add_predictions, change_at, change_accounts, add_changes,
}
use arca_go_sdk.Money.Revalue.{Clock}
use arca_go_sdk.Money.Compose.{account_ids, Revaluations, settled_figures, compose_wallet_money}
use arca_go_sdk.Money.Predictions.{
  Fresh, FreshEnds, FreshAccounts, FreshLegs, money_predicted_legs-FreshLegs,
}

module _ (s : Snapshot) where
  -- The second figure has the legs of the first, and then predicted ones.
  pub record Extends (f g : Figure) : Type 0 where
    pub new_arriving : List Leg
    pub new_departing : List Leg
    pub arriving_same : g.arriving ≡ f.arriving ++ new_arriving
    pub departing_same : g.departing ≡ f.departing ++ new_departing
    pub arriving_fresh : All (Fresh s) new_arriving
    pub departing_fresh : All (Fresh s) new_departing

  abbrev pub ExtendsAt : Option Figure → Option Figure → Type 0
  ExtendsAt none none = Unit
  ExtendsAt (some f) (some g) = Extends f g
  ExtendsAt _ _ = ⊥

  Extends-refl : (f : Figure) → Extends f f
  Extends-refl f = record {
    new_arriving = [];
    new_departing = [];
    arriving_same = sym (append-nil f.arriving);
    departing_same = sym (append-nil f.departing);
    arriving_fresh = tt;
    departing_fresh = tt;
  }

  Extends-trans : (f g h : Figure) → Extends f g → Extends g h → Extends f h
  Extends-trans f g h p q = record {
    new_arriving = p.new_arriving ++ q.new_arriving;
    new_departing = p.new_departing ++ q.new_departing;
    arriving_same =
        q.arriving_same
        ∙ ap (λ k. k ++ q.new_arriving) p.arriving_same
        ∙ append_assoc f.arriving p.new_arriving q.new_arriving;
    departing_same =
        q.departing_same
        ∙ ap (λ k. k ++ q.new_departing) p.departing_same
        ∙ append_assoc f.departing p.new_departing q.new_departing;
    arriving_fresh =
        All-append (Fresh s) p.new_arriving q.new_arriving p.arriving_fresh q.arriving_fresh;
    departing_fresh =
        All-append (Fresh s) p.new_departing q.new_departing p.departing_fresh q.departing_fresh;
  }

  ExtendsAt-refl : (o : Option Figure) → ExtendsAt o o
  ExtendsAt-refl none = tt
  ExtendsAt-refl (some f) = Extends-refl f

  ExtendsAt-trans : (o p q : Option Figure) → ExtendsAt o p → ExtendsAt p q → ExtendsAt o q
  ExtendsAt-trans none none none x y = tt
  ExtendsAt-trans none none (some h) x y = elim y [ ]
  ExtendsAt-trans none (some g) q x y = elim x [ ]
  ExtendsAt-trans (some f) none q x y = elim x [ ]
  ExtendsAt-trans (some f) (some g) none x y = elim y [ ]
  ExtendsAt-trans (some f) (some g) (some h) x y = Extends-trans f g h x y

  append_ends-Extends : (e : Ends) (f : Figure) → FreshEnds s e → Extends f (append_ends e f)
  unfolding append_ends
  append_ends-Extends e f h = record {
    new_arriving = e.arriving;
    new_departing = e.departing;
    arriving_same = refl;
    departing_same = refl;
    arriving_fresh = h.0;
    departing_fresh = h.1;
  }

  put-ExtendsAt :
      (i j : String) (f g : Figure) (m : List (String × Figure))
      → lookup j m ≡ some f
      → Extends f g
      → ExtendsAt (lookup i m) (lookup i (put j g m))
  put-ExtendsAt i j f g m h x = elim (Bool-cases (str_eq j i)) [
    | inl y ↦ rw (lookup-put j i g m, y, ← (eq_iff j i).0 y, h) x
    | inr n ↦ rw (lookup-put j i g m, n) (ExtendsAt-refl (lookup i m))
  ]

  append_at-ExtendsAt :
      (j : String) (e : Ends) (o : Option Figure) (m : List (String × Figure)) (i : String)
      → lookup j m ≡ o
      → FreshEnds s e
      → ExtendsAt (lookup i m) (lookup i (append_at j e o m))
  unfolding append_at
  append_at-ExtendsAt j e none m i h x = ExtendsAt-refl (lookup i m)
  append_at-ExtendsAt j e (some f) m i h x =
      put-ExtendsAt i j f (append_ends e f) m h (append_ends-Extends e f x)

  append_accounts-ExtendsAt :
      (ends : List (String × Ends)) (m : List (String × Figure)) (i : String)
      → FreshAccounts s ends
      → ExtendsAt (lookup i m) (lookup i (append_accounts ends m))
  unfolding append_accounts
  append_accounts-ExtendsAt [] m i h = ExtendsAt-refl (lookup i m)
  append_accounts-ExtendsAt ((j, e) ∷ rest) m i (h, hs) =
      ExtendsAt-trans (lookup i m) (lookup i (append_at j e (lookup j m) m)) _
        (append_at-ExtendsAt j e (lookup j m) m i refl h)
        (append_accounts-ExtendsAt rest (append_at j e (lookup j m) m) i hs)

  change-Extends : (f : Figure) (c : Option Change) → Extends f (record f { change = c })
  change-Extends f c = record {
    new_arriving = [];
    new_departing = [];
    arriving_same = sym (append-nil f.arriving);
    departing_same = sym (append-nil f.departing);
    arriving_fresh = tt;
    departing_fresh = tt;
  }

  change_at-ExtendsAt :
      (j : String) (w : WalletMoney) (o : Option Figure) (m : List (String × Figure)) (i : String)
      → lookup j m ≡ o
      → ExtendsAt (lookup i m) (lookup i (change_at j s w o m))
  unfolding change_at
  change_at-ExtendsAt j w none m i h = ExtendsAt-refl (lookup i m)
  change_at-ExtendsAt j w (some f) m i h = put-ExtendsAt i j f _ m h (change-Extends f _)

  change_accounts-ExtendsAt :
      (order : List String) (w : WalletMoney) (m : List (String × Figure)) (i : String)
      → ExtendsAt (lookup i m) (lookup i (change_accounts order s w m))
  unfolding change_accounts
  change_accounts-ExtendsAt [] w m i = ExtendsAt-refl (lookup i m)
  change_accounts-ExtendsAt (j ∷ order) w m i =
      ExtendsAt-trans (lookup i m) (lookup i (change_at j s w (lookup j m) m)) _
        (change_at-ExtendsAt j w (lookup j m) m i refl)
        (change_accounts-ExtendsAt order w (change_at j s w (lookup j m) m) i)

  record AllExtend (m n : Figures) : Type 0 where
    cash_extends : Extends m.cash n.cash
    total_extends : Extends m.total n.total
    accounts_extend : (i : String) → ExtendsAt (lookup i m.accounts) (lookup i n.accounts)

  AllExtend-refl : (m : Figures) → AllExtend m m
  AllExtend-refl m = record {
    cash_extends = Extends-refl m.cash;
    total_extends = Extends-refl m.total;
    accounts_extend = λ i. ExtendsAt-refl (lookup i m.accounts);
  }

  AllExtend-trans : (m n k : Figures) → AllExtend m n → AllExtend n k → AllExtend m k
  AllExtend-trans m n k p q = record {
    cash_extends = Extends-trans m.cash n.cash k.cash p.cash_extends q.cash_extends;
    total_extends = Extends-trans m.total n.total k.total p.total_extends q.total_extends;
    accounts_extend = λ i.
        ExtendsAt-trans (lookup i m.accounts) (lookup i n.accounts) (lookup i k.accounts)
          (p.accounts_extend i) (q.accounts_extend i);
  }

  append_legs-AllExtend :
      (l : LegsByEnd) (m : Figures) → FreshLegs s l → AllExtend m (append_legs l m)
  unfolding append_legs
  append_legs-AllExtend l m h = record {
    cash_extends = append_ends-Extends l.cash m.cash h.in_cash;
    total_extends = append_ends-Extends l.total m.total h.in_total;
    accounts_extend = λ i. append_accounts-ExtendsAt l.accounts m.accounts i h.in_accounts;
  }

  kept-not_framed :
      (p : Prediction) → is_dropped s p ≡ false → is_framed p.request_id s.operations ≡ false
  unfolding is_dropped
  kept-not_framed p h = ground (arith, h)

  add_predictions-AllExtend :
      (ps : List Prediction) (m : Figures) → AllExtend m (add_predictions s ps m)
  unfolding add_predictions
  add_predictions-AllExtend [] m = AllExtend-refl m
  add_predictions-AllExtend (p ∷ ps) m = elim (Bool-cases (is_dropped s p)) [
    | inl y ↦ rw y (add_predictions-AllExtend ps m)
    | inr n ↦ rw n (
        AllExtend-trans m (append_legs (money_predicted_legs p s) m) _
          (append_legs-AllExtend (money_predicted_legs p s) m
            (money_predicted_legs-FreshLegs s p (kept-not_framed p n)))
          (add_predictions-AllExtend ps (append_legs (money_predicted_legs p s) m)))
  ]

  add_changes-AllExtend :
      (order : List String) (w : Option WalletMoney) (m : Figures)
      → AllExtend m (add_changes order s w m)
  unfolding add_changes
  add_changes-AllExtend order none m = AllExtend-refl m
  add_changes-AllExtend order (some w) m = elim (Bool-cases (ltb w.snapshot.sequence s.sequence)) [
    | inl y ↦ rw y (record {
      cash_extends = change-Extends m.cash _;
      total_extends = change-Extends m.total _;
      accounts_extend = change_accounts-ExtendsAt order w m.accounts;
    })
    | inr n ↦ rw n (AllExtend-refl m)
  ]

  -- Beside the legs that a figure has without predictions, each figure lists only legs that are
  -- flagged as predicted and reserved, and whose request no operation of the snapshot has; and no
  -- account has a figure because of a prediction.
  pub compose_wallet_money-Extends :
      {T : Type 0} (clock : Clock T) (previous : Option WalletMoney) (ps : List Prediction)
      (rs : Revaluations clock)
      → let before = settled_figures clock s rs in
        let m = compose_wallet_money clock s previous ps rs in
        Extends before.cash m.cash
        × Extends before.total m.total
        × ((i : String) → ExtendsAt (lookup i before.accounts) (account_of m i))
  unfolding compose_wallet_money account_of
  compose_wallet_money-Extends clock previous ps rs =
      let all : AllExtend (settled_figures clock s rs) (
          add_changes (account_ids s.accounts) s previous
            (add_predictions s ps (settled_figures clock s rs))) =
        AllExtend-trans (settled_figures clock s rs)
          (add_predictions s ps (settled_figures clock s rs)) _
          (add_predictions-AllExtend ps (settled_figures clock s rs))
          (add_changes-AllExtend (account_ids s.accounts) previous
            (add_predictions s ps (settled_figures clock s rs))) in
      (all.cash_extends, all.total_extends, all.accounts_extend)
