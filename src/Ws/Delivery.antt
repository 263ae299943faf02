-- ===== src/Ws/Delivery.antt =====
-- websocket.go, `checkGap` and its callers in `handleMessage`: the sequence numbers of deliveries and
-- the gaps that are reported to the listeners, the latest first. int64 keeps its wrap-around.
pub mod Gaps
use arca_go_sdk.Prelude.{
  ℕ, suc, ◌-◌, ◌^◌, String, List, [], ◌∷◌, Option, none, some, Bool, true, false, ◌&&◌,
  if◌then◌else◌, ltb,
}
use arca_go_sdk.Prelude.Int.{ℤ, pos, negsuc, ◌+ℤ◌, ◌-ℤ◌, ltb_ℤ}

-- The int64 of a sum or difference of two int64.
unfoldable pub wrap_int64 : ℤ → ℤ
wrap_int64 (pos n) = if ltb n (2 ^ 63) then pos n else negsuc (2 ^ 64 - n - 1)
wrap_int64 (negsuc n) = if ltb n (2 ^ 63) then negsuc n else pos (2 ^ 64 - n - 1)

pub record Delivery : Type 0 where
  pub last_delivery_seq : ℤ
  pub gaps : List ℤ

unfoldable pub emit_gap : ℤ → Delivery → Delivery
emit_gap missed s = record s { gaps = missed ∷ s.gaps }

unfoldable pub check_gap : ℤ → Delivery → Delivery
unfolding wrap_int64 emit_gap
check_gap seq s =
    let last = s.last_delivery_seq in
    if ltb_ℤ (pos 0) last && ltb_ℤ (wrap_int64 (last +ℤ pos 1)) seq
    then emit_gap (wrap_int64 (wrap_int64 (seq -ℤ last) -ℤ pos 1))
        (record s { last_delivery_seq = seq })
    else record s { last_delivery_seq = seq }

-- The types of a message, as far as they matter here: `delivered` stands for those that are checked
-- (candles, open interest, trades, and every type without a case of its own), `control` for those
-- that are not (pong, errors, answers to requests, mids snapshots).
pub data Message : Type 0 where
  delivered resync : Option ℤ → Message
  control authenticated : Message

abbrev pub check_if : Option ℤ → Delivery → Delivery
check_if none s = s
check_if (some seq) s = check_gap seq s

unfoldable pub handle_message : Message → Delivery → Delivery
unfolding check_gap emit_gap
handle_message (delivered seq) s = check_if seq s
handle_message (resync seq) s = emit_gap (pos 1) (check_if seq s)
handle_message control s = s
handle_message authenticated s = record s { last_delivery_seq = pos 0 }

unfoldable pub handle_all : List Message → Delivery → Delivery
unfolding handle_message
handle_all [] s = s
handle_all (m ∷ ms) s = handle_all ms (handle_message m s)
