-- ===== src/Ws/System/Ownership/Calls.antt =====
-- websocket.go: `EnsureConnected`, `Reconnect`, `Disconnect` and `RotateConnection` keep the
-- invariant.
use native.Mathlib.Decide.{ℕ_discrete}
use mathlib.Core.Bool.{false≢true}
use arca_go_sdk.Prelude.{
  ℕ, suc, ◌≡◌, inl, inr, refl, sym, ap, ◌∙◌, none, some, true, false, arith, Bool-cases,
  Option-cases, update,
}
use arca_go_sdk.Ws.Manager.{
  Manager, ensure_connected, reconnect, disconnect, new_handoff, rotate_connection,
}
use arca_go_sdk.Ws.System.{System, WarmPhase, warming, spawn_loop, spawn_handoff}
use arca_go_sdk.Ws.System.Ownership.{owned, owns, Inv}
use arca_go_sdk.Ws.System.Ownership.Handoffs.{set_manager}
use arca_go_sdk.Ws.System.Ownership.Renewal.{Began, begins-Inv, ends-Inv}

module _ (s : System) (v : Inv s) where
  reconnect_idle : s.manager.should_connect ≡ false → reconnect s.manager ≡ (s.manager, none)
  unfolding reconnect
  reconnect_idle e = ground arith

  reconnect-Began :
      s.manager.should_connect ≡ true
      → Began s.manager (reconnect s.manager).0
        × ((reconnect s.manager).0.should_connect ≡ true)
        × (reconnect s.manager ≡ ((reconnect s.manager).0, some (suc s.manager.gen)))
  unfolding reconnect
  reconnect-Began e = (
    (ground arith, ground arith, ground arith, ground arith, λ h. ground arith, λ h. ground arith),
    ground arith,
    ground arith,
  )

  pub reconnect-Inv : Inv (spawn_loop s (reconnect s.manager))
  reconnect-Inv = elim (Bool-cases s.manager.should_connect) [
    | inl e ↦ let (b, w, p) = reconnect-Began e in rw p (begins-Inv s (reconnect s.manager).0 v b w)
    | inr e ↦ rw (reconnect_idle e) v
  ]

  ensure_busy : s.manager.should_connect ≡ true → ensure_connected s.manager ≡ (s.manager, none)
  unfolding ensure_connected
  ensure_busy e = ground (arith, v.same)

  ensure-Began :
      s.manager.should_connect ≡ false
      → Began s.manager (ensure_connected s.manager).0
        × ((ensure_connected s.manager).0.should_connect ≡ true)
        × (ensure_connected s.manager ≡ ((ensure_connected s.manager).0, some (suc s.manager.gen)))
  unfolding ensure_connected
  ensure-Began e =
      let n = elim (Option-cases s.manager.handoff_state) as (λ x. s.manager.handoff_state ≡ none) [
        | inl p ↦ p
        | inr (h, p) ↦ absurd (false≢true (sym e ∙ v.wanted h p))
      ] in
      (
        (
          ground (arith, v.same),
          ground (arith, v.same),
          ground (arith, v.same, n),
          ground (arith, v.same),
          λ h. ground (arith, v.same),
          λ h. ground (arith, v.same),
        ),
        ground (arith, v.same),
        ground (arith, v.same),
      )

  pub ensure_connected-Inv : Inv (spawn_loop s (ensure_connected s.manager))
  ensure_connected-Inv = elim (Bool-cases s.manager.should_connect) [
    | inl e ↦ rw (ensure_busy e) v
    | inr e ↦
        let (b, w, p) = ensure-Began e in rw p (begins-Inv s (ensure_connected s.manager).0 v b w)
  ]

  disconnect-Began :
      Began s.manager (disconnect s.manager) × ((disconnect s.manager).should_connect ≡ false)
  unfolding disconnect
  disconnect-Began = (
    (ground arith, ground arith, ground arith, ground arith, λ h. ground arith, λ h. ground arith),
    ground arith,
  )

  pub disconnect-Inv : Inv (set_manager s (disconnect s.manager))
  disconnect-Inv = ends-Inv s (disconnect s.manager) v disconnect-Began.0 disconnect-Began.1

  rotate_idle :
      (rotate_connection s.next s.manager).1 ≡ false
      → rotate_connection s.next s.manager ≡ (s.manager, false)
  unfolding rotate_connection
  rotate_idle e = ground arith

  -- The manager while a handoff of the goroutine `s.next` starts.
  abbrev starting : Manager
  starting = record s.manager {
    handoff_state = some s.next;
    handoffs = update s.manager.handoffs s.next (record new_handoff { timeout = true });
  }

  rotate_starts :
      (rotate_connection s.next s.manager).1 ≡ true
      → rotate_connection s.next s.manager ≡ (starting, true)
  unfolding rotate_connection
  rotate_starts e = ground arith

  owns-starting : (j : ℕ) → owns (spawn_handoff s (starting, true)) j ≡ owns s j
  owns-starting j = elim (ℕ_discrete s.next j) [
    | yes h ↦
        let f = v.fresh j (omega (arith, h)) in
        ground (arith, h, f.1) ∙ sym (ap (owned (s.manager.handoffs j).new_gen) f.0)
    | no h ↦ ground (arith, h)
  ]

  started-Inv : s.manager.should_connect ≡ true → Inv (spawn_handoff s (starting, true))
  started-Inv w = record {
    same = v.same;
    bounded = λ j. rw owns-starting (v.bounded j);
    unique = λ j k p e.
        v.unique j k (rw owns-starting at p) (sym (owns-starting j) ∙ e ∙ owns-starting k);
    idle = λ f j p. absurd (false≢true (sym f ∙ w));
    wanted = λ h k. w;
    warm = λ h k.
        let g : update s.goroutines s.next (warming s.manager.gen WarmPhase.dialing) h
            ≡ warming s.manager.gen WarmPhase.dialing =
          ground arith in
        (rw g refl, ground arith);
    fresh = λ j n. let f = v.fresh j (omega arith) in (ground (arith, f.0), ground (arith, f.1));
    conn_bound = v.conn_bound;
    heap_bound = λ h c k. ground (arith, v.heap_bound h c);
    apart = λ h c k l. absurd (ground arith);
  }

  pub rotate_connection-Inv : Inv (spawn_handoff s (rotate_connection s.next s.manager))
  rotate_connection-Inv = elim (Bool-cases (rotate_connection s.next s.manager).1) [
    | inl e ↦ rotates e
    | inr e ↦ rw (rotate_idle e) v
  ]
    where
      rotates :
          (rotate_connection s.next s.manager).1 ≡ true
          → Inv (spawn_handoff s (rotate_connection s.next s.manager))
      rotates e =
          let w : s.manager.should_connect ≡ true = unfold rotate_connection in (ground arith) in
          rw (rotate_starts e) (started-Inv w)
