-- ===== src/Execution/Provenance.antt =====
-- order_execution.go and execution_receipt.go: where the evidence of an execution comes from.
use mathlib.Core.Bool.{◌||◌}
use mathlib.Core.Option.{some-injective}
use arca_go_sdk.Prelude.{
  ◌≡◌, refl, sym, subst, ap, ◌∙◌, String, [], Option, none, some, Bool, true, false, not,
  if◌then◌else◌, str_eq, arith,
}
use arca_go_sdk.Execution.Types.{Operation, SimOrder, SimOrderWithFills, is_completed}
use arca_go_sdk.Execution.Disposition.{is_terminal_order_status, execution_disposition}
use arca_go_sdk.Execution.Evidence.{
  OutcomeFields, Intent, Codec, decode_text, decode_raw, intent_of, belongs, reported_order,
  with_intent, is_evidence, evidence_of, from_fields, operation_execution, observed_operation,
  execution_update,
}

abbrev pub size_of : Option Intent → String
size_of none = ""
size_of (some i) = i.size

abbrev pub observed_fields : SimOrder → OutcomeFields
observed_fields order = record {
  order_id = order.id;
  status = order.status;
  filled_size = order.filled_size;
  avg_fill_price = order.avg_fill_price;
  fills = [];
  fills_complete = none;
}

module _ (codec : Codec) where
  -- What an accepted piece of evidence guarantees.
  pub record IsProof (op : Operation) (object_id : String) (v : OutcomeFields)
      (e : SimOrderWithFills) : Type 0 where
    pub is_final : is_terminal_order_status e.order.status ≡ true
    pub is_known : str_eq (execution_disposition e.order).0 "unknown" ≡ false
    pub is_named : str_eq e.order.id "" ≡ false
    pub is_own : belongs object_id (intent_of codec op) ≡ true
    pub id_reported : e.order.id ≡ v.order_id
    pub filled_reported : e.order.filled_size ≡ v.filled_size
    pub size_intended : e.order.size ≡ size_of (intent_of codec op)

  with_intent-id : (i : Option Intent) (o : SimOrder) → (with_intent i o).id ≡ o.id
  unfolding with_intent
  with_intent-id none o = refl
  with_intent-id (some i) o = refl

  with_intent-filled_size :
      (i : Option Intent) (o : SimOrder) → (with_intent i o).filled_size ≡ o.filled_size
  unfolding with_intent
  with_intent-filled_size none o = refl
  with_intent-filled_size (some i) o = refl

  with_intent-size :
      (i : Option Intent) (v : OutcomeFields) → (with_intent i (reported_order v)).size ≡ size_of i
  unfolding with_intent reported_order
  with_intent-size none v = refl
  with_intent-size (some i) v = refl

  if_some :
      {A : Type 0} (b : Bool) (x y : A)
      → (if b then some x else none) ≡ some y
      → (b ≡ true) × (x ≡ y)
  if_some true x y h = (refl, some-injective x y h)
  if_some false x y h = absurd (ground arith)

  unless_some :
      {A : Type 0} (b : Bool) (o : Option A) (y : A)
      → (if b then none else o) ≡ some y
      → (b ≡ false) × (o ≡ some y)
  unless_some true o y h = absurd (ground arith)
  unless_some false o y h = (refl, h)

  is_evidence_lem :
      (o : SimOrder)
      → is_evidence o ≡ true
      → (is_terminal_order_status o.status ≡ true)
        × (str_eq (execution_disposition o).0 "unknown" ≡ false)
  unfolding is_evidence
  is_evidence_lem o h = ground (arith, h)

  guards : (a b : Bool) → a || not b ≡ false → (a ≡ false) × (b ≡ true)
  guards a b h = ground (arith, h)

  from_fields-IsProof :
      (op : Operation) (object_id : String) (v : OutcomeFields) (e : SimOrderWithFills)
      → from_fields codec op object_id (some v) ≡ some e
      → IsProof op object_id v e
  unfolding from_fields evidence_of reported_order
  from_fields-IsProof op object_id v e h =
      let i = intent_of codec op in
      let o : SimOrder = with_intent i (reported_order v) in
      let (g, h2) = unless_some (str_eq v.order_id "" || not (belongs object_id i)) _ e h in
      let (ok, same) = if_some (is_evidence o) _ e h2 in
      let (final, known) = is_evidence_lem o ok in
      let (named, own) = guards (str_eq v.order_id "") (belongs object_id i) g in
      let q : o ≡ e.order = ap (λ (x : SimOrderWithFills). x.order) same in
      record {
        is_final = subst (λ (x : SimOrder). is_terminal_order_status x.status ≡ true) q final;
        is_known =
            subst (λ (x : SimOrder). str_eq (execution_disposition x).0 "unknown" ≡ false) q known;
        is_named =
            ap (λ t. str_eq t "")
              (sym (ap (λ (x : SimOrder). x.id) q) ∙ with_intent-id i (reported_order v))
            ∙ named;
        is_own = own;
        id_reported = sym (ap (λ (x : SimOrder). x.id) q) ∙ with_intent-id i (reported_order v);
        filled_reported =
            sym (ap (λ (x : SimOrder). x.filled_size) q)
            ∙ with_intent-filled_size i (reported_order v);
        size_intended = sym (ap (λ (x : SimOrder). x.size) q) ∙ with_intent-size i v;
      }

  no_fields_none :
      (op : Operation) (object_id : String) (e : SimOrderWithFills)
      → from_fields codec op object_id none ≡ some e
      → ⊥
  unfolding from_fields
  no_fields_none op object_id e h = ground arith

  when_some :
      {A : Type 0} (b : Bool) (o : Option A) (y : A)
      → (if b then o else none) ≡ some y
      → (b ≡ true) × (o ≡ some y)
  when_some true o y h = (refl, h)
  when_some false o y h = absurd (ground arith)

  from_fields-reported :
      (op : Operation) (object_id : String) (o : Option OutcomeFields) (e : SimOrderWithFills)
      → from_fields codec op object_id o ≡ some e
      → (v : OutcomeFields) × (o ≡ some v) × IsProof op object_id v e
  from_fields-reported op object_id none e h = absurd (no_fields_none op object_id e h)
  from_fields-reported op object_id (some v) e h = (v, refl, from_fields-IsProof op object_id v e h)

  -- A completed operation is evidence only if its outcome names an order, is terminal and has sizes
  -- that decide it, and its input is of no other account; the order's id and filled size are those of
  -- the outcome, and its size is that of the immutable input and never the outcome's.
  pub operation_execution_sound :
      (op : Operation) (object_id : String) (e : SimOrderWithFills)
      → operation_execution codec op object_id ≡ some e
      → (is_completed op.state ≡ true)
        × ((v : OutcomeFields) × (decode_raw codec op ≡ some v) × IsProof op object_id v e)
  unfolding operation_execution
  operation_execution_sound op object_id e h =
      let (c, r) =
        when_some (is_completed op.state) (from_fields codec op object_id (decode_raw codec op)) e
          h in
      (c, from_fields-reported op object_id (decode_raw codec op) e r)

  -- The text of an observed order is not empty, and reads back as the order's four fields.
  pub record ReadsBack (order : SimOrder) : Type 0 where
    pub not_empty :
        str_eq (codec.encode order.id order.status order.filled_size order.avg_fill_price) ""
        ≡ false
    pub reads_back :
        codec.decode_outcome
          (codec.encode order.id order.status order.filled_size order.avg_fill_price)
        ≡ some (observed_fields order)

  -- An observed order, where its text reads back, is joined to the operation only if it is terminal and
  -- decided: the evidence has the observed id and filled size, but the size that the operation's own
  -- input asked for, whatever size the observation has.
  pub execution_update_sound :
      (op : Operation) (object_id : String) (order : SimOrder) (e : SimOrderWithFills)
      → ReadsBack order
      → execution_update codec op object_id order ≡ some e
      → (e.order.id ≡ order.id)
        × (e.order.filled_size ≡ order.filled_size)
        × (e.order.size ≡ size_of (intent_of codec op))
        × (belongs object_id (intent_of codec op) ≡ true)
        × (is_terminal_order_status e.order.status ≡ true)
  unfolding execution_update decode_raw decode_text observed_operation intent_of
  execution_update_sound op object_id order e law h =
      let r : (is_completed (observed_operation codec op order).state ≡ true)
          × ((v : OutcomeFields) × (decode_raw codec (observed_operation codec op order) ≡ some v)
              × IsProof (observed_operation codec op order) object_id v e) =
        (operation_execution_sound (observed_operation codec op order) object_id e h) in
      let (v, d, p) = r.1 in
      let text = codec.encode order.id order.status order.filled_size order.avg_fill_price in
      let q : v ≡ observed_fields order = some-injective v (observed_fields order) (
        sym d
        ∙ ap (λ b. decode_text codec op.parsed_outcome (if b then none else some text))
            law.not_empty
        ∙ law.reads_back) in
      (
        p.id_reported ∙ ap (λ (x : OutcomeFields). x.order_id) q,
        p.filled_reported ∙ ap (λ (x : OutcomeFields). x.filled_size) q,
        p.size_intended,
        p.is_own,
        p.is_final,
      )
