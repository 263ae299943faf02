-- ===== src/CashStream/Scanned.antt =====
-- cash_v9_stream.go: what one connection delivers, and what its end reports.
use arca_go_sdk.Prelude.{
  ℕ, ◌≡◌, refl, sym, ap, ◌∙◌, String, List, [], ◌∷◌, ◌++◌, Option, none, some, false, arith, All,
  All-append, str_eq, eq_iff, ◌==◌, Bool-cases, inl, inr, not, ◌&&◌,
}
use mathlib.Core.List.{append_assoc}
use arca_go_sdk.Client.Errors.{Error}
use arca_go_sdk.CashStream.{
  Snapshot, Stop, disconnected, returned, Scan, Answer, no_answer, gateway, declined, not_a_stream,
  streams, or_stopped, accept_snapshot, check_snapshot, has_lines, dispatch, read_line, read_lines,
  stream_account, join_lines,
}

-- The revision of the latest of these snapshots, else the one before.
abbrev pub latest_revision : {A : Type 0} → List (Snapshot A) → ℕ → ℕ
latest_revision [] before = before
latest_revision (w ∷ ws) before = w.revision

latest_revision-append :
    {A : Type 0} (ws vs : List (Snapshot A)) (r : ℕ)
    → latest_revision (ws ++ vs) r ≡ latest_revision ws (latest_revision vs r)
latest_revision-append [] vs r = refl
latest_revision-append (w ∷ ws) vs r = refl

-- A snapshot that the stream of a realm may deliver.
abbrev pub IsFor : {A : Type 0} → String → Snapshot A → Type 0
IsFor realm w = (w.schema ≡ 1) × (w.realm_id ≡ realm)

-- `t` is `s` after more lines.
pub record Extends {A : Type 0} (realm : String) (s t : Scan A) : Type 0 where
  pub fresh : List (Snapshot A)
  pub more : t.accepted ≡ fresh ++ s.accepted
  pub good : All (IsFor realm) fresh
  pub last : t.last ≡ latest_revision fresh s.last

module _ {A : Type 0} (realm : String) (decode : String → Option (Snapshot A))
    (accept : List (Snapshot A) → Snapshot A → Option Error) where
  unchanged : (s t : Scan A) → t.accepted ≡ s.accepted → t.last ≡ s.last → Extends realm s t
  unchanged s t e f = record { fresh = []; more = e; good = tt; last = f }

  -- A line never ends the read with a disconnect.
  abbrev IsGoing : Option Stop → Type 0
  IsGoing (some (disconnected l c)) = ⊥
  IsGoing _ = Unit

  abbrev Steps : Scan A → Scan A × Option Stop → Type 0
  Steps s (t, stop) = Extends realm s t × IsGoing stop

  accept_snapshot-Steps :
      (s : Scan A) (w : Snapshot A) (o : Option Error)
      → IsFor realm w
      → Steps s (accept_snapshot realm decode accept s w o)
  accept_snapshot-Steps s w (some e) g = (unchanged s _ refl refl, tt)
  accept_snapshot-Steps s w none g =
      (record { fresh = w ∷ []; more = refl; good = (g, tt); last = refl }, tt)

  check_snapshot-Steps :
      (s : Scan A) (o : Option (Snapshot A)) → Steps s (check_snapshot realm decode accept s o)
  check_snapshot-Steps s none = (unchanged s _ refl refl, tt)
  check_snapshot-Steps s (some w) = elim (Bool-cases (w.schema == 1)) [
    | inr e ↦ rw e (unchanged s _ refl refl, tt)
    | inl e ↦ elim (Bool-cases (str_eq w.realm_id realm)) [
      | inr f ↦ rw (e, f) (unchanged s _ refl refl, tt)
      | inl f ↦
          let schema_one : w.schema ≡ 1 = ground (arith, e) in
          rw (e, f)
            (accept_snapshot-Steps s w (accept s.accepted w)
              (schema_one, (eq_iff w.realm_id realm).0 f))
    ]
  ]

  dispatch-Steps : (s : Scan A) → Steps s (dispatch realm decode accept s)
  unfolding dispatch
  dispatch-Steps s = elim (Bool-cases (has_lines realm decode accept s.lines)) [
    | inr e ↦ rw e (unchanged s _ refl refl, tt)
    | inl e ↦ elim (Bool-cases (not (str_eq s.event "snapshot") && not (str_eq s.event ""))) [
      | inl f ↦ rw (e, f) (unchanged s _ refl refl, tt)
      | inr f ↦ rw (e, f) (check_snapshot-Steps s (decode (join_lines s.lines)))
    ]
  ]

  read_line-Steps : (s : Scan A) (l : String) → Steps s (read_line realm decode accept s l)
  unfolding read_line
  read_line-Steps s l = elim (Bool-cases (str_eq l "")) [
    | inl e ↦ rw e (dispatch-Steps s)
    | inr e ↦ rw e (unchanged s _ (ground arith) (ground arith), ground arith)
  ]

  Extends-then : (s t u : Scan A) → Extends realm s t → Extends realm t u → Extends realm s u
  Extends-then s t u a b = record {
    fresh = b.fresh ++ a.fresh;
    more = b.more ∙ ap (λ x. b.fresh ++ x) a.more ∙ sym (append_assoc b.fresh a.fresh s.accepted);
    good = All-append (IsFor realm) b.fresh a.fresh b.good a.good;
    last =
        b.last
        ∙ ap (latest_revision b.fresh) a.last
        ∙ sym (latest_revision-append b.fresh a.fresh s.last);
  }

  -- The end reports the revision that the scanner is at.
  abbrev ReportsLast : Scan A × Stop → Type 0
  ReportsLast (t, stop) = (l : ℕ) (c : String) → stop ≡ disconnected l c → l ≡ t.last

  Good : Scan A → Scan A × Stop → Type 0
  Good s r = Extends realm s r.0 × ReportsLast r

  or_stopped-Good :
      (s : Scan A) (again : Scan A → Scan A × Stop) (r : Scan A × Option Stop)
      → Steps s r
      → ((t : Scan A) → Good t (again t))
      → Good s (or_stopped again r)
  unfolding Good
  or_stopped-Good s again (t, none) e f = (Extends-then s t _ e.0 (f t).0, (f t).1)
  or_stopped-Good s again (t, some (disconnected l c)) e f = absurd e.1
  or_stopped-Good s again (t, some (returned o)) e f = (e.0, λ l c h. absurd (ground (arith, h)))

  read_lines-Good :
      (s : Scan A) (ls : List String) (cause : Option String)
      → Good s (read_lines realm decode accept s ls cause)
  unfolding read_lines Good
  read_lines-Good s [] none = (unchanged s _ refl refl, λ l c e. ground (arith, e))
  read_lines-Good s [] (some cause) = (unchanged s _ refl refl, λ l c e. ground (arith, e))
  read_lines-Good s (l ∷ ls) cause =
      or_stopped-Good s (λ t. read_lines realm decode accept t ls cause)
        (read_line realm decode accept s l) (read_line-Steps s l) (λ t. read_lines-Good t ls cause)

  opened :
      (s : Scan A) (ls : List String) (cause : Option String)
      → Extends realm s (read_lines realm decode accept s ls cause).0
        × ReportsLast (read_lines realm decode accept s ls cause)
  unfolding Good
  opened s ls cause = read_lines-Good s ls cause

  -- Whatever a connection sends, `accept` takes only snapshots of schema 1 and of the realm that was
  -- asked for; and a disconnect, also before the stream opened, reports the revision of the last one
  -- taken, or else the one that the connection was asked to resume from.
  pub stream_account_sound :
      (answer : Answer) (last_revision : ℕ) (accepted : List (Snapshot A))
      → let r = stream_account realm decode accept answer last_revision accepted in
        (fresh : List (Snapshot A)) × (r.0.accepted ≡ fresh ++ accepted)
        × All (IsFor realm) fresh
        × ((l : ℕ) (cause : String)
            → r.1 ≡ disconnected l cause
            → l ≡ latest_revision fresh last_revision)
  unfolding stream_account
  stream_account_sound (no_answer cause) r acc = ([], refl, tt, λ l c e. ground (arith, e))
  stream_account_sound (gateway cause) r acc = ([], refl, tt, λ l c e. ground (arith, e))
  stream_account_sound (declined e) r acc = ([], refl, tt, λ l c e. absurd (ground (arith, e)))
  stream_account_sound not_a_stream r acc = ([], refl, tt, λ l c e. absurd (ground (arith, e)))
  stream_account_sound (streams ls cause) r acc =
      let start : Scan A = record {
        event = "";
        lines = [];
        last = r;
        delivered = false;
        accepted = acc;
      } in
      let (e, f) = opened start ls cause in (e.fresh, e.more, e.good, λ l c h. f l c h ∙ e.last)
