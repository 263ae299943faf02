-- ===== src/Ws/Delivery/Gaps.antt =====
-- websocket.go: the gaps that are reported against the numbers of the deliveries.
use arca_go_sdk.Prelude.{
  subst, ℕ, suc, ◌+◌, ◌-◌, ◌^◌, ◌≤◌, ◌<◌, ◌≡◌, refl, sym, ap, ◌∙◌, List, [], ◌∷◌, none, some, true,
  if◌then◌else◌, ltb, arith,
}
use arca_go_sdk.Prelude.Int.{ℤ, pos, negsuc, pos_part, ◌+ℤ◌, ◌-ℤ◌, ltb_ℤ}
use arca_go_sdk.Ws.Delivery.{
  wrap_int64, Delivery, emit_gap, check_gap, Message, delivered, handle_message, handle_all,
}

wrap_int64-small : (n : ℕ) → n < 2 ^ 63 → wrap_int64 (pos n) ≡ pos n
unfolding wrap_int64
wrap_int64-small n h = ground (arith, h)

difference : (m n : ℕ) → n ≤ m → pos m -ℤ pos n ≡ pos (m - n)
unfolding ◌-ℤ◌
difference m n h = ground (arith, h)

sum : (m n : ℕ) → pos m +ℤ pos n ≡ pos (m + n)
unfolding ◌+ℤ◌
sum m n = ground arith

next_seq : (n : ℕ) → n + 1 < 2 ^ 63 → wrap_int64 (pos n +ℤ pos 1) ≡ pos (n + 1)
next_seq n h = ap wrap_int64 (sum n 1) ∙ wrap_int64-small (n + 1) h

missed_between :
    (last seq : ℕ)
    → last < seq
    → seq < 2 ^ 63
    → wrap_int64 (wrap_int64 (pos seq -ℤ pos last) -ℤ pos 1) ≡ pos (seq - last - 1)
missed_between last seq l b =
    ap (λ x. wrap_int64 (wrap_int64 x -ℤ pos 1)) (difference seq last (omega (arith, l)))
    ∙ ap (λ x. wrap_int64 (x -ℤ pos 1)) (wrap_int64-small (seq - last) (omega (arith, b)))
    ∙ ap wrap_int64 (difference (seq - last) 1 (omega (arith, l)))
    ∙ wrap_int64-small (seq - last - 1) (omega (arith, b))

-- The events that the reported gaps are said to have lost.
unfoldable pub total_missed : List ℤ → ℕ
total_missed [] = 0
total_missed (g ∷ gs) = pos_part g + total_missed gs

gap_or_none : ℕ → ℕ → Delivery → Delivery
gap_or_none last seq s =
    if ltb (last + 1) seq
    then record { last_delivery_seq = pos seq; gaps = pos (seq - last - 1) ∷ s.gaps }
    else record { last_delivery_seq = pos seq; gaps = s.gaps }

check_gap-after :
    (last seq : ℕ) (s : Delivery)
    → s.last_delivery_seq ≡ pos last
    → 0 < last
    → last < seq
    → seq < 2 ^ 63
    → check_gap (pos seq) s ≡ gap_or_none last seq s
unfolding check_gap emit_gap gap_or_none
check_gap-after last seq s e p l b =
    let positive : ltb_ℤ (pos 0) (pos last) ≡ true = ground (arith, p) in
    let next = next_seq last (omega (arith, l, b)) in
    let missed = missed_between last seq l b in rw (e, positive, next, missed) (ground arith)

first_seq :
    (seq : ℕ) (s : Delivery)
    → check_gap (pos seq) (record s { last_delivery_seq = pos 0 })
      ≡ record { last_delivery_seq = pos seq; gaps = s.gaps }
unfolding check_gap
first_seq seq s = refl

-- Deliveries whose numbers rise, among messages that have none.
abbrev pub IsRising : ℕ → List Message → Type 0
IsRising last [] = Unit
IsRising last (Message.control ∷ ms) = IsRising last ms
IsRising last (delivered none ∷ ms) = IsRising last ms
IsRising last (delivered (some (pos n)) ∷ ms) = (last < n) × (n < 2 ^ 63) × IsRising n ms
IsRising last (_ ∷ ms) = ⊥

unfoldable pub count_delivered : List Message → ℕ
count_delivered [] = 0
count_delivered (delivered (some n) ∷ ms) = suc (count_delivered ms)
count_delivered (_ ∷ ms) = count_delivered ms

unfoldable pub final_seq : ℕ → List Message → ℕ
final_seq last [] = last
final_seq last (delivered (some (pos n)) ∷ ms) = final_seq n ms
final_seq last (_ ∷ ms) = final_seq last ms

gap_total :
    (last seq : ℕ) (s : Delivery)
    → last < seq
    → total_missed (gap_or_none last seq s).gaps + last + 1 ≡ total_missed s.gaps + seq
unfolding gap_or_none total_missed
gap_total last seq s l = ground (arith, l)

gap_last : (last seq : ℕ) (s : Delivery) → (gap_or_none last seq s).last_delivery_seq ≡ pos seq
unfolding gap_or_none
gap_last last seq s = ground arith

handle_all-total :
    (last : ℕ) (ms : List Message) (s : Delivery)
    → s.last_delivery_seq ≡ pos last
    → 0 < last
    → IsRising last ms
    → total_missed (handle_all ms s).gaps + last + count_delivered ms
      ≡ total_missed s.gaps + final_seq last ms
unfolding handle_all handle_message count_delivered final_seq
handle_all-total last [] s e p r = omega arith
handle_all-total last (Message.control ∷ ms) s e p r = handle_all-total last ms s e p r
handle_all-total last (Message.authenticated ∷ ms) s e p r = absurd r
handle_all-total last (Message.resync o ∷ ms) s e p r = absurd r
handle_all-total last (delivered none ∷ ms) s e p r = handle_all-total last ms s e p r
handle_all-total last (delivered (some (negsuc n)) ∷ ms) s e p r = absurd r
handle_all-total last (delivered (some (pos n)) ∷ ms) s e p (l, b, r) =
    let one =
      handle_all-total n ms (gap_or_none last n s) (gap_last last n s) (omega (arith, p, l)) r in
    subst
      (λ t.
        total_missed (handle_all ms t).gaps + last + suc (count_delivered ms)
        ≡ total_missed s.gaps + final_seq n ms)
      (sym (check_gap-after last n s e p l b)) (omega (arith, one, gap_total last n s l))

-- On a connection that has authenticated, with deliveries whose numbers rise below 2 ^ 63 among
-- messages without a number: the gaps that are reported lost exactly the deliveries between the
-- first number and the last that did not come.
pub handle_all-missed :
    (s : Delivery) (first : ℕ) (ms : List Message)
    → 0 < first
    → IsRising first ms
    → total_missed (handle_all (Message.authenticated ∷ delivered (some (pos first)) ∷ ms) s).gaps
        + first
        + count_delivered ms
      ≡ total_missed s.gaps + final_seq first ms
unfolding handle_all handle_message
handle_all-missed s first ms p r =
    subst
      (λ t.
        total_missed (handle_all ms t).gaps + first + count_delivered ms
        ≡ total_missed s.gaps + final_seq first ms)
      (sym (first_seq first s))
      (handle_all-total first ms (record { last_delivery_seq = pos first; gaps = s.gaps }) refl p r)
