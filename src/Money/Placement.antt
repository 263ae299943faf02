-- ===== src/Money/Placement.antt =====
-- money_figure.go: on which figures the money of a moving entry shows, and how often.
use arca_go_sdk.Prelude.{
  ℕ, ◌+◌, String, List, [], ◌∷◌, Option, none, some, Bool, true, false, ◌&&◌, not, if◌then◌else◌,
  str_eq, lookup,
}
use arca_go_sdk.Money.Wallet.{Moving, Snapshot}
use arca_go_sdk.Money.Types.{
  Direction, incoming, outgoing, Stage, reserved, in_transit, expected, PartyKind, Counterparty,
  listed, Leg, same_stage,
}
use arca_go_sdk.Money.Parties.{money_counterparty}
use arca_go_sdk.Money.Legs.{Ends, ends_of, LegsByEnd, stage_of}

abbrev pub one_if : Bool → ℕ
one_if b = if b then 1 else 0

unfoldable pub count_stage : Stage → List Leg → ℕ
count_stage st [] = 0
count_stage st (l ∷ ls) = one_if (same_stage l.stage st) + count_stage st ls

-- Cash, or the account of an id.
abbrev pub Place : Type 0
Place = Option String

unfoldable pub ends_at : Place → LegsByEnd → Ends
unfolding lookup
ends_at none legs = legs.cash
ends_at (some arca_id) legs = ends_of (lookup arca_id legs.accounts)

unfoldable pub legs_of : Direction → Ends → List Leg
legs_of incoming e = e.arriving
legs_of outgoing e = e.departing

-- The legs of a stage that arrive at, or depart from, one place.
unfoldable pub count_shown : Place → Direction → Stage → LegsByEnd → ℕ
unfolding count_stage legs_of ends_at
count_shown place d st legs = count_stage st (legs_of d (ends_at place legs))

-- Whether a party is the place.
abbrev pub is_at : Place → PartyKind → String → Bool
is_at none PartyKind.cash arca_id = true
is_at (some place) PartyKind.account arca_id = str_eq arca_id place
is_at _ _ _ = false

abbrev adds : Bool → Stage → Stage → ℕ
adds b k st = if b then one_if (same_stage k st) else 0

-- Whether an entry's money is to show at one place as a leg of this direction, by its stage, whether
-- its source and its target are that place, and whether its target is listed: what is reserved departs
-- from its source and arrives at its target; what has left its source arrives at its target, or
-- departs from its source if the target is not listed; what is expected arrives at its target.
unfoldable pub shows_at : Stage → Direction → Bool → Bool → Bool → Bool
shows_at _ incoming is_source is_target target_listed = is_target
shows_at reserved outgoing is_source is_target target_listed = is_source
shows_at in_transit outgoing is_source is_target target_listed = is_source && not target_listed
shows_at expected outgoing is_source is_target target_listed = false

abbrev at_party : Place → Counterparty → Bool
at_party place c = is_at place c.kind c.arca_id

abbrev shows_as : Place → Direction → Stage → Option Stage → Counterparty → Counterparty → ℕ
shows_as place d st none from_party to_party = 0
shows_as place d st (some entry) from_party to_party = one_if (
    same_stage entry st
    && shows_at entry d (at_party place from_party) (at_party place to_party) (listed to_party))

unfoldable pub shows : Place → Direction → Stage → Snapshot → List Moving → ℕ
unfolding listed money_counterparty stage_of shows_at
shows place d st s [] = 0
shows place d st s (e ∷ es) =
    shows_as place d st (stage_of e.leg) (money_counterparty e.source s)
      (money_counterparty e.target s)
    + shows place d st s es
