-- ===== src/Execution/Buffer.antt =====
-- operation.go: what the examination of one event makes of the buffer.
use arca_go_sdk.Prelude.{
  ℕ, suc, ◌+◌, ◌≤◌, ◌<◌, ◌≡◌, ◌⊎◌, inl, inr, refl, sym, subst, String, List, [], ◌∷◌, ◌++◌, Option,
  none, some, true, false, ◌&&◌, Bool-cases, ltb, length, length-append, str_eq, eq_refl, arith,
}
use arca_go_sdk.Execution.Types.{Operation, SimOrder, SimOrderWithFills, Outcome}
use arca_go_sdk.Execution.Disposition.{is_terminal_order_status}
use arca_go_sdk.Execution.Evidence.{Codec, execution_update}
use arca_go_sdk.Execution.Waiting.{
  Event, Waiting, Verdict, keep, max_kept, by_operation, returned, by_order, examine, examine_next,
  settle_verdict,
}

-- The event is in the list.
pub data Has (ev : Event) : List Event → Type 0 where
  here : {xs : List Event} → Has ev (ev ∷ xs)
  there : {x : Event} {xs : List Event} → Has ev xs → Has ev (x ∷ xs)

pub Has-append : (ev : Event) (xs ys : List Event) → Has ev xs → Has ev (xs ++ ys)
Has-append ev all ys (here {xs}) = Has.here
Has-append ev all ys (there {x} {xs} h) = Has.there (Has-append ev xs ys h)

Has-last : (ev : Event) (xs : List Event) → Has ev (xs ++ ev ∷ [])
Has-last ev [] = Has.here
Has-last ev (x ∷ xs) = Has.there (Has-last ev xs)

-- What an examination makes of the buffer: as it was, or with the event at its end.
abbrev KeptFrom : List Event → Event → List Event → Type 0
KeptFrom events x kept = (kept ≡ events) ⊎ (kept ≡ events ++ x ∷ [])

keep-KeptFrom : (x : Event) (events : List Event) → KeptFrom events x (keep x events)
unfolding keep
keep-KeptFrom x events = elim (Bool-cases (ltb (length events) max_kept)) [
  | inl y ↦ rw y (inr refl)
  | inr n ↦ rw n (inl refl)
]

keep-room :
    (x : Event) (events : List Event) → length events < 256 → keep x events ≡ events ++ x ∷ []
unfolding keep
keep-room x events h = rw (room (length events) h) refl
  where
    room : (n : ℕ) → n < 256 → ltb n max_kept ≡ true
    room n h = ground arith

kept-Has :
    (ev x : Event) (events kept : List Event) → KeptFrom events x kept → Has ev events → Has ev kept
kept-Has ev x events kept (inl e) h = subst (Has ev) (sym e) h
kept-Has ev x events kept (inr e) h = subst (Has ev) (sym e) (Has-append ev events (x ∷ []) h)

kept-length :
    (x : Event) (events kept : List Event)
    → KeptFrom events x kept
    → length kept ≤ suc (length events)
kept-length x events kept (inl e) =
    subst (λ k. length k ≤ suc (length events)) (sym e) (omega arith)
kept-length x events kept (inr e) =
    subst (λ k. length k ≤ suc (length events)) (sym e)
      (omega (arith, length-append events (x ∷ [])))

module _ (codec : Codec) (op : Operation) (object_id : String) where
  -- An event of a terminal order of the account that the operation's input can be joined to.
  pub record IsEvidence (ev : Event) (order : SimOrder) : Type 0 where
    pub has_order : ev.order ≡ some order
    pub of_account : str_eq ev.entity_id object_id ≡ true
    pub is_named : str_eq order.id "" ≡ false
    pub is_final : is_terminal_order_status order.status ≡ true
    pub evidence : SimOrderWithFills
    pub is_joined : execution_update codec op object_id order ≡ some evidence

  abbrev Keeps : List Event → Event → Verdict → Type 0
  Keeps events x (Verdict.keeps kept) = KeptFrom events x kept
  Keeps events x (Verdict.returns r) = Unit

  returned-Keeps :
      (x : Event) (e : Option SimOrderWithFills) (events : List Event)
      → Keeps events x (returned codec op object_id e events)
  unfolding returned
  returned-Keeps x none events = inl refl
  returned-Keeps x (some e) events = tt

  by_order-Keeps :
      (resolved : String) (x : Event) (o : Option SimOrder) (events : List Event)
      → Keeps events x (by_order codec op object_id resolved x o events)
  unfolding by_order
  by_order-Keeps resolved x none events = inl refl
  by_order-Keeps resolved x (some order) events = elim (Bool-cases (str_eq x.entity_id object_id)) [
    | inr n ↦ rw n (inl refl)
    | inl y ↦ elim (Bool-cases (str_eq resolved "")) [
      | inl z ↦ rw (y, z) (keep-KeptFrom x events)
      | inr z ↦
          elim (Bool-cases (str_eq order.id resolved && is_terminal_order_status order.status)) [
            | inl t ↦
                rw (y, z, t) (returned-Keeps x (execution_update codec op object_id order) events)
            | inr t ↦ rw (y, z, t) (inl refl)
          ]
    ]
  ]

  examine-Keeps :
      (resolved : String) (x : Event) (o : Option (Outcome SimOrderWithFills)) (events : List Event)
      → Keeps events x (examine codec op object_id resolved x o events)
  unfolding examine
  examine-Keeps resolved x (some r) events = tt
  examine-Keeps resolved x none events = by_order-Keeps resolved x x.order events

  -- The id is not known, or that of the order.
  abbrev pub NoOther : SimOrder → String → Type 0
  NoOther order resolved = (resolved ≡ "") ⊎ (resolved ≡ order.id)

  abbrev Holds : Event → Verdict → Type 0
  Holds ev (Verdict.keeps kept) = Has ev kept
  Holds ev (Verdict.returns r) = Unit

  own_order-Holds :
      (ev : Event) (order : SimOrder) (resolved : String) (events : List Event)
      → IsEvidence ev order
      → NoOther order resolved
      → length events < 256
      → Holds ev (by_order codec op object_id resolved ev (some order) events)
  unfolding by_order returned
  own_order-Holds ev order resolved events i (inl k) l =
      rw (k, i.of_account, keep-room ev events l) (Has-last ev events)
  own_order-Holds ev order resolved events i (inr k) l =
      rw (k, i.of_account, i.is_named, eq_refl order.id, i.is_final, i.is_joined) tt

  -- The event itself is kept while the id is not known, and ends the wait once it is.
  own-Holds :
      (ev : Event) (order : SimOrder) (resolved : String) (o : Option (Outcome SimOrderWithFills))
      (events : List Event)
      → IsEvidence ev order
      → NoOther order resolved
      → length events < 256
      → Holds ev (examine codec op object_id resolved ev o events)
  unfolding examine
  own-Holds ev order resolved (some r) events i k l = tt
  own-Holds ev order resolved none events i k l =
      subst (λ o. Holds ev (by_order codec op object_id resolved ev o events)) (sym i.has_order)
        (own_order-Holds ev order resolved events i k l)

  -- The event is in the batch or the buffer, which with `n` further events have at most 256.
  pub record Safe (ev : Event) (order : SimOrder) (n : ℕ) (w : Waiting) : Type 0 where
    pub no_other : NoOther order w.resolved
    pub buffered : Has ev w.batch ⊎ Has ev w.events
    pub room : length w.events + length w.batch + n ≤ 256

  abbrev pub SafeUnless :
      Event → SimOrder → ℕ → Waiting × Option (Outcome SimOrderWithFills) → Type 0
  SafeUnless ev order n (w, none) = Safe ev order n w
  SafeUnless ev order n (w, some r) = Unit

  pub examined-Safe :
      (ev : Event) (order : SimOrder) (n : ℕ) (w : Waiting) (x : Event) (rest : List Event)
      → IsEvidence ev order
      → NoOther order w.resolved
      → Has ev (x ∷ rest) ⊎ Has ev w.events
      → length w.events + suc (length rest) + n ≤ 256
      → SafeUnless ev order n (examine_next codec op object_id w (x ∷ rest))
  unfolding examine_next settle_verdict
  examined-Safe ev order n w x rest i k h l =
      settled
        (examine codec op object_id w.resolved x
          (by_operation codec op object_id w.resolved x.operation) w.events)
        (examine-Keeps w.resolved x (by_operation codec op object_id w.resolved x.operation)
          w.events)
        (found x rest h)
    where
      found :
          (y : Event) (ys : List Event)
          → Has ev (y ∷ ys) ⊎ Has ev w.events
          → Holds ev (
              examine codec op object_id w.resolved y
                (by_operation codec op object_id w.resolved y.operation)
                w.events)
            ⊎ (Has ev ys ⊎ Has ev w.events)
      found y ys (inl (here {xs})) = inl (
          own-Holds ev order w.resolved (by_operation codec op object_id w.resolved ev.operation)
            w.events i k (omega (arith, l)))
      found y ys (inl (there {x} {xs} t)) = inr (inl t)
      found y ys (inr t) = inr (inr t)

      settled :
          (v : Verdict)
          → Keeps w.events x v
          → Holds ev v ⊎ (Has ev rest ⊎ Has ev w.events)
          → SafeUnless ev order n (settle_verdict codec op object_id rest w v)
      settled (Verdict.returns r) c f = tt
      settled (Verdict.keeps kept) c f = record {
        no_other = k;
        buffered = elim f [
          | inl own ↦ inr own
          | inr (inl later) ↦ inl later
          | inr (inr before) ↦ inr (kept-Has ev x w.events kept c before)
        ];
        room = omega (arith, l, kept-length x w.events kept c);
      }
