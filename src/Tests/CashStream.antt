-- ===== src/Tests/CashStream.antt =====
-- cash_v9_stream.go at concrete inputs.
use Prim.Native.String.{◌++◌ as str_append}
use arca_go_sdk.Prelude.{
  ℕ, ◌≤◌, ◌≡◌, refl, String, List, [], ◌∷◌, ◌++◌, map, Option, none, some, true, false, All,
}
use arca_go_sdk.Client.Errors.{Error}
use arca_go_sdk.CashStream.{
  Snapshot, Scan, disconnected, Answer, stream_account, read_lines, Round, run_stream,
}
use arca_go_sdk.CashStream.Scanned.{IsFor, latest_revision, stream_account_sound}
use arca_go_sdk.CashStream.Frames.{read_lines-frame}
use arca_go_sdk.CashStream.Runs.{Descends, first_round, run_stream_sound}

abbrev test_snapshot : Snapshot ℕ
test_snapshot = record { schema = 1; realm_id = "rlm_1"; revision = 9; account = 0 }

abbrev test_decode : String → Option (Snapshot ℕ)
test_decode text = some test_snapshot

abbrev takes_all : List (Snapshot ℕ) → Snapshot ℕ → Option Error
takes_all ws w = none

abbrev test_lines : List String
test_lines = ":" ∷ "" ∷ "id: 9" ∷ "event: snapshot" ∷ "data: {" ∷ "data: }" ∷ "" ∷ []

abbrev test_scan : Scan ℕ
test_scan = record { event = ""; lines = []; last = 3; delivered = false; accepted = [] }

abbrev test_rounds : List Round
test_rounds =
    record { answer = Answer.streams test_lines none; done_after = false; done_in_wait = false }
    ∷ record { answer = Answer.gateway "http 502"; done_after = false; done_in_wait = true }
    ∷ []

stream_account_sound_example :
    let r = stream_account "rlm_1" test_decode takes_all (Answer.streams test_lines none) 3 [] in
    (fresh : List (Snapshot ℕ)) × (r.0.accepted ≡ fresh ++ [])
    × All (IsFor "rlm_1") fresh
    × ((l : ℕ) (cause : String) → r.1 ≡ disconnected l cause → l ≡ latest_revision fresh 3)
stream_account_sound_example =
    stream_account_sound "rlm_1" test_decode takes_all (Answer.streams test_lines none) 3 []

read_lines-frame_example :
    read_lines "rlm_1" test_decode takes_all test_scan
      (str_append "id: " "9"
        ∷ "event: snapshot"
        ∷ (map (str_append "data: ") ("{" ∷ "}" ∷ []) ++ "" ∷ ":" ∷ []))
      none
    ≡ read_lines "rlm_1" test_decode takes_all
        (record test_scan { last = 9; delivered = true; accepted = test_snapshot ∷ [] })
        (":" ∷ [])
        none
read_lines-frame_example =
    read_lines-frame "rlm_1" test_decode takes_all test_scan "9" "{" ("}" ∷ []) (":" ∷ []) none
      test_snapshot refl refl refl refl refl

run_stream_sound_example :
    let s = (run_stream "rlm_1" test_decode takes_all first_round test_rounds).0 in
    Descends s.revision s.sent_ids
    × All (λ t. (1 ≤ t) × (t ≤ 30)) s.waits
    × All (IsFor "rlm_1") s.taken
run_stream_sound_example = run_stream_sound "rlm_1" test_decode takes_all test_rounds
