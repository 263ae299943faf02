-- ===== src/Ws/System/Ownership/Race.antt =====
-- websocket.go: a promotion by its retry timer between the read error of the warming connection and
-- `abortHandoffIf`.
use native.Mathlib.Decide.{ℕ_discrete}
use arca_go_sdk.Prelude.{ℕ, suc, ◌≤◌, ◌<◌, ◌≡◌, refl, ◌∙◌, [], ◌∷◌, none, some, true, arith, ltb}
use arca_go_sdk.Ws.Manager.{connected, ensure_connected, abort_handoff_if, promote_handoff}
use arca_go_sdk.Ws.System.{
  System, WarmPhase, Action, done, warming, fails, step_goroutine, step, run, goes,
}
use arca_go_sdk.Ws.System.Ownership.{owns, Inv}
use arca_go_sdk.Ws.System.Ownership.Handoffs.{promote_owns}

module _ (s : System) (v : Inv s) (i g c : ℕ) (at : s.goroutines i ≡ warming g WarmPhase.failing)
    (under_way : s.manager.handoff_state ≡ some i) (dialed : (s.manager.handoffs i).conn ≡ some c)
    (retried : 0 < (s.manager.handoffs i).attempts) (answered : s.manager.pending ≡ []) where
  promotes :
      let m = promote_handoff i s.manager in
      (m.gen ≡ suc s.manager.gen)
      × (m.should_connect ≡ s.manager.should_connect)
      × (m.connecting ≡ true)
      × (m.status ≡ s.manager.status)
      × (m.conn ≡ some c)
      × (m.handoff_state ≡ none)
  unfolding promote_handoff
  promotes = ground arith

  gives_up : abort_handoff_if i (promote_handoff i s.manager) ≡ promote_handoff i s.manager
  unfolding abort_handoff_if
  gives_up = ground (arith, promotes)

  after_race :
      run s (Action.retries_promotion i ∷ Action.advances i fails ∷ [])
      ≡ goes s i (promote_handoff i s.manager) done
  unfolding run step step_goroutine
  after_race =
      let e : ltb 0 (s.manager.handoffs i).attempts ≡ true = ground arith in
      rw e (rw at (rw gives_up refl))

  race_owns : (j : ℕ) → owns (goes s i (promote_handoff i s.manager) done) j ≤ s.manager.gen
  race_owns j = elim (ℕ_discrete i j) [
    | yes e ↦ ground (arith, e)
    | no n ↦ ground (arith, n, promote_owns s v i j, v.bounded j)
  ]

  -- A race: the warming connection of a handoff fails after its promotion was put off, and the retry
  -- timer promotes the handoff before the goroutine gives it up. Then a connection is wanted and the
  -- state says connecting and connected, but no goroutine answers for the new generation, and
  -- EnsureConnected starts none.
  pub promote_after_failure_orphans :
      s.manager.status ≡ connected
      → let t = run s (Action.retries_promotion i ∷ Action.advances i fails ∷ []) in
        (t.manager.should_connect ≡ true)
        × (t.manager.status ≡ connected)
        × (t.manager.conn ≡ some c)
        × ((j : ℕ) → owns t j < t.manager.gen)
        × (step t Action.ensure_connecteds ≡ t)
  promote_after_failure_orphans up =
      let w = v.wanted i under_way in
      let p = promotes in
      rw after_race (
        p.1 ∙ w,
        p.3 ∙ up,
        p.4,
        λ j. omega (arith, race_owns j, p.0),
        unfold step ensure_connected in (ground (arith, w, p, up)),
      )
