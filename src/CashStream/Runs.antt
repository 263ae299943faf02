-- ===== src/CashStream/Runs.antt =====
-- cash_v9_stream.go, RunCashV9WalletAccountStream: what the connections of one run resume from, how
-- long it waits between them, and when it ends.
use arca_go_sdk.Prelude.{
  ℕ, zero, suc, ◌^◌, ◌≤◌, ◌≡◌, sym, subst, String, List, [], ◌∷◌, Option, none, some, false, arith,
  All, All-append, if◌then◌else◌, Bool-cases, inl, inr,
}
use arca_go_sdk.Client.Errors.{Error}
use arca_go_sdk.CashStream.{
  Snapshot, Stop, disconnected, returned, Scan, Answer, stream_account, backoff, Loop, Round,
  Result, reconnects, ends, after_stream, or_running, run_stream,
}
use arca_go_sdk.CashStream.Scanned.{IsFor, stream_account_sound}

-- The wait doubles from one second, and stays at thirty from the sixth attempt on.
pub backoff_lem :
    (n : ℕ)
    → (1 ≤ backoff n)
      × (backoff n ≤ 30)
      × (n ≤ 4 → backoff n ≡ 2 ^ n)
      × (5 ≤ n → backoff n ≡ 30)
      × (backoff n ≤ backoff (suc n))
unfolding backoff
backoff_lem zero = ground arith
backoff_lem (suc zero) = ground arith
backoff_lem (suc (suc zero)) = ground arith
backoff_lem (suc (suc (suc zero))) = ground arith
backoff_lem (suc (suc (suc (suc zero)))) = ground arith
backoff_lem (suc (suc (suc (suc (suc zero))))) = ground arith
backoff_lem (suc (suc (suc (suc (suc (suc n)))))) = ground arith

-- From the latest to the first, no number is above the one before it.
abbrev pub Descends : ℕ → List ℕ → Type 0
Descends top [] = Unit
Descends top (i ∷ is) = (i ≤ top) × Descends i is

pub record Sound {A : Type 0} (realm : String) (s : Loop A) : Type 0 where
  pub ids : Descends s.revision s.sent_ids
  pub slow : All (λ t. (1 ≤ t) × (t ≤ 30)) s.waits
  pub good : All (IsFor realm) s.taken

module _ {A : Type 0} (realm : String) (decode : String → Option (Snapshot A))
    (accept : List (Snapshot A) → Snapshot A → Option Error) where
  ends-Sound :
      (s : Loop A) (scan : Scan A)
      → Sound realm s
      → All (IsFor realm) scan.accepted
      → Sound realm (ends realm decode accept s scan)
  ends-Sound s scan v g = record { ids = (omega arith, v.ids); slow = v.slow; good = g }

  reconnects-Sound :
      (s : Loop A) (scan : Scan A) (last : ℕ)
      → Sound realm s
      → All (IsFor realm) scan.accepted
      → Sound realm (reconnects realm decode accept s scan last)
  reconnects-Sound s scan last v g = record {
    ids = (ground arith, v.ids);
    slow =
        let (low, high, a, b, c) = backoff_lem (if scan.delivered then 0 else s.attempt) in
        ((low, high), v.slow);
    good = g;
  }

  after_stream-Sound :
      (s : Loop A) (r : Round) (scan : Scan A) (stop : Stop)
      → Sound realm s
      → All (IsFor realm) scan.accepted
      → Sound realm (after_stream realm decode accept s r (scan, stop)).0
  after_stream-Sound s r scan stop v g = elim (Bool-cases r.done_after) [
    | inl e ↦ rw e (ends-Sound s scan v g)
    | inr e ↦ rw e (by_stop stop)
  ]
    where
      by_stop :
          (stop : Stop)
          → Sound realm
              (after_stream realm decode accept s (record r { done_after = false }) (scan, stop)).0
      by_stop (disconnected l c) = reconnects-Sound s scan l v g
      by_stop (returned e) = ends-Sound s scan v g

  or_running-Sound :
      (again : Loop A → Loop A × Option Result) (r : Loop A × Option Result)
      → Sound realm r.0
      → ((t : Loop A) → Sound realm t → Sound realm (again t).0)
      → Sound realm (or_running again r).0
  or_running-Sound again (t, none) v f = f t v
  or_running-Sound again (t, some x) v f = v

  stream_good :
      (answer : Answer) (l : ℕ) (taken : List (Snapshot A))
      → All (IsFor realm) taken
      → All (IsFor realm) (stream_account realm decode accept answer l taken).0.accepted
  stream_good answer l taken g =
      let (fresh, more, good, f) = stream_account_sound realm decode accept answer l taken in
      subst (All (IsFor realm)) (sym more) (All-append (IsFor realm) fresh taken good g)

  run_stream-Sound :
      (s : Loop A) (rs : List Round)
      → Sound realm s
      → Sound realm (run_stream realm decode accept s rs).0
  unfolding run_stream
  run_stream-Sound s [] v = v
  run_stream-Sound s (r ∷ rs) v =
      let (scan, stop) = stream_account realm decode accept r.answer s.revision s.taken in
      or_running-Sound (λ t. run_stream realm decode accept t rs) _
        (after_stream-Sound s r scan stop v (stream_good r.answer s.revision s.taken v.good))
        (λ t. run_stream-Sound t rs)

abbrev pub first_round : {A : Type 0} → Loop A
first_round = record { revision = 0; attempt = 0; sent_ids = []; waits = []; taken = [] }

-- Over any rounds of the loop: no connection resumes from an earlier revision than one before it, and
-- none from a later one than the loop is at; every wait is of one to thirty seconds; and the
-- caller is given only snapshots of schema 1 and of the realm that was asked for.
pub run_stream_sound :
    {A : Type 0} (realm : String) (decode : String → Option (Snapshot A))
    (accept : List (Snapshot A) → Snapshot A → Option Error) (rs : List Round)
    → let s = (run_stream realm decode accept first_round rs).0 in
      Descends s.revision s.sent_ids
      × All (λ t. (1 ≤ t) × (t ≤ 30)) s.waits
      × All (IsFor realm) s.taken
run_stream_sound realm decode accept rs =
    let v =
      run_stream-Sound realm decode accept first_round rs
        (record { ids = tt; slow = tt; good = tt }) in
    (v.ids, v.slow, v.good)
