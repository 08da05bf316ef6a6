-- ===== src/Bridge/Daemon/Stopping.antt =====
-- The end of the sidecar's daemon by `stop` of pjsr/lib/SidecarBridge.js.
use distributed_wbpp.Prelude.{
  ◌≡◌, refl, ◌∙◌, ap, inl, inr, Bool, true, false, none, some, Outcome, ok, throw, Bool-cases,
}
use distributed_wbpp.Calls.{Call, pure, after, rescue, Returns, returned, >>=-Ends}
use distributed_wbpp.Bridge.Daemon.{Machine, State, lift, kill_running, stop}

-- A process says whether it is alive, the wait for its end returns, and none is alive after it was killed.
pub record IsKillable {W : Type 0} (M : Machine W) (alive : M.Process → W → Bool) : Type 0 where
  pub tells : (p : M.Process) (w : W) → M.is_running p w ≡ some (alive p w)
  pub waits : (p : M.Process) (w : W) → (M.wait_finished p w).0 ≡ ok tt
  pub kills : (p : M.Process) (w : W) → alive p (M.kill p w).1 ≡ false

module _ {W : Type 0} (M : Machine W) (alive : M.Process → W → Bool) (K : IsKillable M alive) where
  -- Whatever a swallowed call does, what follows is done with its state.
  swallowed :
      {A : Type 0} {P : A → State M → Type 0} (r : Outcome (Unit {0})) (s : State M)
      (k : Call (State M) A)
      → ((t : State M) → Returns P (k t))
      → Returns P (after (λ _. k) (rescue (λ e. pure tt) r s).0 (rescue (λ e. pure tt) r s).1)
  swallowed (ok u) s k h = h s
  swallowed (throw e) s k h = h s

  abbrev Dead : M.Process → State M → Type 0
  Dead p t = alive p t.world ≡ false

  killed :
      (p : M.Process) (r : Outcome (Unit {0})) (s : State M)
      → Dead p s
      → Returns (λ _ t. Dead p t) (rescue (λ e. pure tt) r s)
  killed p (ok u) s h = returned h
  killed p (throw e) s h = returned h

  kill_running_lem : (p : M.Process) (s : State M) → Returns (λ _ t. Dead p t) (kill_running M p s)
  unfolding kill_running lift
  kill_running_lem p s = elim (Bool-cases (alive p s.world)) [
    | inl e ↦
        let runs : M.is_running p s.world ≡ some true = K.tells p s.world ∙ ap some e in
        rw (runs, kill_running)
          (killed p (M.kill p s.world).0 (record s { world = (M.kill p s.world).1 })
            (K.kills p s.world))
    | inr e ↦
        let runs : M.is_running p s.world ≡ some false = K.tells p s.world ∙ ap some e in
        rw (runs, kill_running) (returned e)
  ]

  -- A stop returns, the bridge then has no daemon, and the process that it had is not alive, whether the
  -- polite request to end was heeded, ignored or threw: where the process says whether it is alive, the wait
  -- returns and a kill kills.
  pub stop_lem :
      (p : M.Process) (s : State M)
      → s.daemon ≡ some p
      → Returns (λ _ t. (t.daemon ≡ none) × (alive p t.world ≡ false)) (stop M s)
  unfolding stop lift
  stop_lem p s h =
      rw (h, stop)
        (swallowed (M.terminate p s.world).0 (record s { world = (M.terminate p s.world).1 }) _
          (λ t. rw (K.waits p t.world) (
            >>=-Ends _ (kill_running_lem p (record t { world = (M.wait_finished p t.world).1 }))
              (λ _ u dead. returned (refl, dead)))))
