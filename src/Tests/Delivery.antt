-- ===== src/Tests/Delivery.antt =====
-- The sequence numbers of websocket.go at concrete inputs.
use arca_go_sdk.Prelude.{◌≡◌, ◌+◌, List, [], ◌∷◌, some, arith}
use arca_go_sdk.Prelude.Int.{pos}
use arca_go_sdk.Ws.Delivery.{Delivery, Message, delivered, handle_all}
use arca_go_sdk.Ws.Delivery.Gaps.{total_missed, count_delivered, final_seq, handle_all-missed}

abbrev at_start : Delivery
at_start = record { last_delivery_seq = pos 40; gaps = [] }

-- 5, 6, 9: two deliveries did not come.
abbrev later : List Message
later = delivered (some (pos 6)) ∷ Message.control ∷ delivered (some (pos 9)) ∷ []

handle_all-missed_example :
    total_missed
        (handle_all (Message.authenticated ∷ delivered (some (pos 5)) ∷ later) at_start).gaps
      + 5
      + count_delivered later
    ≡ total_missed [] + final_seq 5 later
handle_all-missed_example =
    handle_all-missed at_start 5 later (omega arith)
      (omega arith, omega arith, (omega arith, omega arith, tt))
