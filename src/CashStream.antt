-- ===== src/CashStream.antt =====
-- cash_v9_stream.go: the wallet account stream, one server-sent-events connection at a time, and the
-- loop that keeps it open. The JSON decoder and the transport are parameters; a connection is what
-- the transport makes of it, and a text that the scanner yields is a line without its end.
pub mod Frames
pub mod Scanned
pub mod Runs
use Prim.Native.String.{◌++◌ as str_append, ◌∷◌ as str_cons, [] as str_nil, len, slice}
use Prim.Native.Char.{Char, code}
use text.Mathlib.Text.{starts_with}
use arca_go_sdk.Prelude.{
  ℕ, zero, suc, ◌*◌, ◌^◌, String, List, [], ◌∷◌, ◌++◌, Option, none, some, Bool, true, false, ◌||◌,
  ◌&&◌, not, if◌then◌else◌, str_eq, ◌==◌, ltb, leb, trim_space,
}
use arca_go_sdk.Client.Errors.{Error, other}

-- `strings.TrimPrefix` and `strings.Join(lines, "\n")`.
unfoldable pub trim_prefix : String → String → String
trim_prefix s p = if starts_with s p then slice s (len p) (len s) else s

unfoldable pub join_lines : List String → String
join_lines [] = ""
join_lines (l ∷ []) = l
join_lines (l ∷ (k ∷ ls)) = str_append l (str_append "\n" (join_lines (k ∷ ls)))

-- The fields of `CashV9WalletAccount` that the stream reads, and the rest of it.
pub record Snapshot (A : Type 0) : Type 0 where
  pub schema : ℕ
  pub realm_id : String
  pub revision : ℕ
  pub account : A

-- How StreamCashV9WalletAccount ends: with a disconnect, which has the last revision and the cause,
-- or with another error or none.
pub data Stop : Type 0 where
  disconnected : ℕ → String → Stop
  returned : Option Error → Stop

-- The scanner's variables, and the snapshots that `accept` took, the latest first.
pub record Scan (A : Type 0) : Type 0 where
  pub event : String
  pub lines : List String
  pub last : ℕ
  pub delivered : Bool  -- whether `accept` was called on this connection
  pub accepted : List (Snapshot A)

-- The transport: no response, a status from 502 to 504, another status than 200 (with what `unwrap`
-- makes of it), a response of another content type, or lines and the scanner's error.
pub data Answer : Type 0 where
  no_answer gateway : String → Answer
  declined : Option Error → Answer
  not_a_stream : Answer
  streams : List String → Option String → Answer

abbrev or_stopped {ℓ κ} : {S : Type ℓ} {R : Type κ} → (S → S × R) → S × Option R → S × R
or_stopped again (s, none) = again s
or_stopped again (s, some stop) = (s, stop)

module _ {A : Type 0} (realm : String) (decode : String → Option (Snapshot A))  -- json.Unmarshal
    (accept : List (Snapshot A) → Snapshot A → Option Error) where
  abbrev accept_snapshot : Scan A → Snapshot A → Option Error → Scan A × Option Stop
  accept_snapshot s w (some e) =
      (record s { event = ""; lines = []; delivered = true }, some (returned (some e)))
  accept_snapshot s w none = (
    record s {
      event = "";
      lines = [];
      last = w.revision;
      delivered = true;
      accepted = w ∷ s.accepted;
    },
    none,
  )

  abbrev check_snapshot : Scan A → Option (Snapshot A) → Scan A × Option Stop
  check_snapshot s none = (
    record s { event = ""; lines = [] },
    some (returned (some (other "arca: wallet account frame"))),
  )
  check_snapshot s (some w) =
      if not (w.schema == 1)
      then (
        record s { event = ""; lines = [] },
        some (returned (some (other "arca: wallet account schema"))),
      )
      else if not (str_eq w.realm_id realm)
      then (
        record s { event = ""; lines = [] },
        some (returned (some (other "arca: wallet account realm"))),
      )
      else accept_snapshot s w (accept s.accepted w)

  abbrev has_lines : List String → Bool
  has_lines [] = false
  has_lines (_ ∷ _) = true

  -- The deferred reset of the frame is in each branch.
  unfoldable pub dispatch : Scan A → Scan A × Option Stop
  dispatch s =
      if not (has_lines s.lines)
      then (record s { event = ""; lines = [] }, none)
      else if not (str_eq s.event "snapshot") && not (str_eq s.event "")
      then (record s { event = ""; lines = [] }, none)
      else check_snapshot s (decode (join_lines s.lines))

  unfoldable pub read_line : Scan A → String → Scan A × Option Stop
  unfolding dispatch
  read_line s line =
      if str_eq line ""
      then dispatch s
      else if starts_with line ":"
      then (s, none)
      else if starts_with line "id:"
      then (s, none)
      else if starts_with line "event:"
      then (record s { event = trim_space (trim_prefix line "event:") }, none)
      else if starts_with line "data:"
      then (record s { lines = s.lines ++ trim_prefix (trim_prefix line "data:") " " ∷ [] }, none)
      else (s, none)

  -- The loop, until the scanner has no line left; an end without an error is unexpected all the same.
  unfoldable pub read_lines : Scan A → List String → Option String → Scan A × Stop
  unfolding read_line
  read_lines s [] none = (s, disconnected s.last "unexpected EOF")
  read_lines s [] (some cause) = (s, disconnected s.last cause)
  read_lines s (l ∷ ls) cause = or_stopped (λ t. read_lines t ls cause) (read_line s l)

  -- StreamCashV9WalletAccount on what the transport answers, with `lastRevision` in the request.
  unfoldable pub stream_account : Answer → ℕ → List (Snapshot A) → Scan A × Stop
  unfolding read_lines
  stream_account answer last_revision accepted =
      let start : Scan A = record {
        event = "";
        lines = [];
        last = last_revision;
        delivered = false;
        accepted = accepted;
      } in
      elim answer [
        | no_answer cause ↦ (start, disconnected last_revision cause)
        | gateway cause ↦ (start, disconnected last_revision cause)
        | declined e ↦ (start, returned e)
        | not_a_stream ↦ (start, returned (some (other "arca: wallet account stream unavailable")))
        | streams ls cause ↦ read_lines start ls cause
      ]

-- `cashV9StreamBackoff`, in seconds, of an attempt that is not negative.
unfoldable pub backoff : ℕ → ℕ
backoff attempt = if ltb 5 attempt then 30 else if ltb 30 (2 ^ attempt) then 30 else 2 ^ attempt

-- The variables of RunCashV9WalletAccountStream, the Last-Event-ID of each connection so far and the
-- waits in seconds, the latest first; a revision of 0 is sent as no id.
pub record Loop (A : Type 0) : Type 0 where
  pub revision : ℕ
  pub attempt : ℕ
  pub sent_ids : List ℕ
  pub waits : List ℕ
  pub taken : List (Snapshot A)

-- One round: what the transport answers, and whether the context ends before its end or in the wait.
pub record Round : Type 0 where
  pub answer : Answer
  pub done_after : Bool
  pub done_in_wait : Bool

pub data Result : Type 0 where
  cancelled : Result
  gave : Option Error → Result

abbrev pub max : ℕ → ℕ → ℕ
max a b = if ltb a b then b else a

abbrev or_running {ℓ κ} :
    {S : Type ℓ} {R : Type κ} → (S → S × Option R) → S × Option R → S × Option R
or_running again (s, none) = again s
or_running again (s, some r) = (s, some r)

module _ {A : Type 0} (realm : String) (decode : String → Option (Snapshot A))
    (accept : List (Snapshot A) → Snapshot A → Option Error) where
  -- After a disconnect.
  abbrev pub reconnects : Loop A → Scan A → ℕ → Loop A
  reconnects s scan last =
      let attempt = if scan.delivered then 0 else s.attempt in
      record {
        revision = max s.revision last;
        attempt = suc attempt;
        sent_ids = s.revision ∷ s.sent_ids;
        waits = backoff attempt ∷ s.waits;
        taken = scan.accepted;
      }

  abbrev pub ends : Loop A → Scan A → Loop A
  ends s scan = record s { sent_ids = s.revision ∷ s.sent_ids; taken = scan.accepted }

  abbrev pub after_stream : Loop A → Round → Scan A × Stop → Loop A × Option Result
  after_stream s r (scan, stop) =
      if r.done_after then (ends s scan, some cancelled) else elim stop [
        | returned e ↦ (ends s scan, some (gave e))
        | disconnected last cause ↦
            (reconnects s scan last, if r.done_in_wait then some cancelled else none)
      ]

  unfoldable pub run_stream : Loop A → List Round → Loop A × Option Result
  unfolding stream_account backoff
  run_stream s [] = (s, none)
  run_stream s (r ∷ rs) =
      or_running (λ t. run_stream t rs)
        (after_stream s r (stream_account realm decode accept r.answer s.revision s.taken))
