-- ===== src/Execution/Paths.antt =====
-- operation.go: the calls of an order's handle on the order it placed.
use Prim.Native.Char.{code}
use arca_go_sdk.Prelude.{◌≡◌, ap, String, Option, none, some, if◌then◌else◌, ◌==◌, str_eq}
use arca_go_sdk.Execution.Types.{Operation}
use arca_go_sdk.Execution.Handle.{Reply}
use arca_go_sdk.Client.Json.{get_field, as_string}
use arca_go_sdk.Money.Parties.{or_empty}
use arca_go_sdk.Execution.Evidence.{nonempty}
use arca_go_sdk.Execution.Types.{Outcome, done, refused}

unfoldable pub join : String → String → String
join String.[] t = t
join (String.◌∷◌ c s) t = String.◌∷◌ c (join s t)

-- What follows a text at the beginning of another, if it stands there.
unfoldable pub strip : String → String → Option String
strip String.[] s = some s
strip (String.◌∷◌ c old) String.[] = none
strip (String.◌∷◌ c old) (String.◌∷◌ d s) =
    let rest = strip old s in if code c == code d then rest else none

-- replaceFirst, with the search of indexOf.
replace_at : String → Option String → String → String
unfolding join
replace_at new (some rest) s = join new rest
replace_at new none s = s

unfoldable pub replace_first : String → String → String → String
unfolding strip replace_at
replace_first old new String.[] = replace_at new (strip old "") ""
replace_first old new (String.◌∷◌ c s) =
    replace_at new (strip old (String.◌∷◌ c s)) (String.◌∷◌ c (replace_first old new s))

-- The path of Cancel: the caller's, or one derived from the placement.
unfoldable pub cancel_path : String → String → String
unfolding replace_first
cancel_path placement_path path =
    if str_eq path "" then replace_first "/op/order/" "/op/cancel/" placement_path else path

unfoldable pub modify_path : String → String → String → String
unfolding replace_first join
modify_path placement_path new_size path =
    if str_eq path ""
    then join (replace_first "/op/order/" "/op/modify/" placement_path) (join "-" new_size)
    else path

join-cancel : (s t u : String) → join s t ≡ join s u → t ≡ u
unfolding join
join-cancel String.[] t u h = h
join-cancel (String.◌∷◌ c s) t u h = join-cancel s t u (behind h)
  where
    behind : String.◌∷◌ c (join s t) ≡ String.◌∷◌ c (join s u) → join s t ≡ join s u
    behind e = ap (λ x. elim x [ String.[] ↦ "" | String.◌∷◌ d r ↦ r ]) e

-- The paths that Resize makes up for one order are the same only if the sizes are the same texts, so
-- that a second resize is never taken for a repetition of another.
pub modify_path-injective :
    (placement_path s t : String)
    → modify_path placement_path s "" ≡ modify_path placement_path t ""
    → s ≡ t
unfolding modify_path
modify_path-injective placement_path s t h = join-cancel "-" s t (
    join-cancel (replace_first "/op/order/" "/op/modify/" placement_path) (join "-" s) (join "-" t)
      h)

-- `id, ok := ParsedOutcome["orderId"].(string); ok && id != ""`, then the outcome's text, then the
-- operation's own id. `decode_id` is encoding/json at the struct with this one field.
module _ (decode_id : String → Option String) where
  abbrev decoded_id : Option String → Option String
  decoded_id none = none
  decoded_id (some text) = decode_id text

  unfoldable pub order_id_of : Operation → String
  unfolding as_string get_field
  order_id_of op =
      let parsed = elim op.parsed_outcome as (λ o. String) [
        | none ↦ ""
        | some fields ↦ as_string (get_field fields "orderId")
      ] in
      let written = or_empty (decoded_id (nonempty op.outcome)) in
      if str_eq parsed "" then (if str_eq written "" then op.id else written) else parsed

  unfoldable pub resolve_order_id : Reply Operation → Outcome String
  unfolding order_id_of
  resolve_order_id (op, some f) = refused f
  resolve_order_id (op, none) = done (order_id_of op)

  -- The call that Cancel makes: the path and the order.
  cancel_with : String → String → Outcome String → Outcome (String × String)
  unfolding cancel_path
  cancel_with placement_path path (refused f) = refused f
  cancel_with placement_path path (done order_id) = done (cancel_path placement_path path, order_id)

  unfoldable pub cancel : String → String → Reply Operation → Outcome (String × String)
  unfolding cancel_with resolve_order_id
  cancel placement_path path waited = cancel_with placement_path path (resolve_order_id waited)

  resize_with : String → String → String → Outcome String → Outcome (String × String × String)
  unfolding modify_path
  resize_with placement_path new_size path (refused f) = refused f
  resize_with placement_path new_size path (done order_id) =
      done (modify_path placement_path new_size path, order_id, new_size)

  unfoldable pub resize :
      String → String → String → Reply Operation → Outcome (String × String × String)
  unfolding resize_with resolve_order_id
  resize placement_path new_size path waited =
      resize_with placement_path new_size path (resolve_order_id waited)
