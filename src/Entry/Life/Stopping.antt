-- ===== src/Entry/Life/Stopping.antt =====
-- What `stop` of pjsr/lib/SidecarBridge.js leaves alive.
use distributed_wbpp.Prelude.{
  ◌≡◌, refl, sym, ◌∙◌, ap, ◌⊎◌, inl, inr, Bool, true, false, Option-cases, none, some, Outcome, ok,
  throw, Bool-cases, subst,
}
use distributed_wbpp.Calls.{Call, pure, after, rescue, Returns, returned, threw, >>=-Ends}
use distributed_wbpp.Bridge.Daemon.{State, lift, kill_running, stop}
use distributed_wbpp.Entry.{Script}
use distributed_wbpp.Entry.Life.{IsTidy, Quiet, Only}

module _ {W : Type 0} (S : Script W) (alive : S.machine.Process → W → Bool) (T : IsTidy S alive)
    (Fresh : S.machine.Process → Type 0) where
  -- None but this process.
  abbrev But : S.machine.Process → W → Type 0
  But p w = (q : S.machine.Process) → Fresh q → (p ≡ q) ⊎ (alive q w ≡ false)

  all_dead :
      (p : S.machine.Process) (w : W) (s : State S.machine)
      → s.world ≡ w
      → But p w
      → alive p w ≡ false
      → Quiet S alive Fresh s
  all_dead p w s at but dead q f = elim (but q f) [
    | inl same ↦ rw at (subst (λ r. alive r w ≡ false) same dead)
    | inr gone ↦ rw at gone
  ]

  But-still :
      (p : S.machine.Process) (w v : W)
      → ((q : S.machine.Process) → alive q w ≡ false → alive q v ≡ false)
      → But p w
      → But p v
  But-still p w v still but q f = elim (but q f) [
    | inl same ↦ inl same
    | inr gone ↦ inr (still q gone)
  ]

  swallowed :
      {A : Type 0} {P : A → State S.machine → Type 0} (p : S.machine.Process)
      (r : Outcome (Unit {0})) (s : State S.machine) (k : Call (State S.machine) A)
      → But p s.world
      → ((t : State S.machine) → But p t.world → Returns P (k t))
      → Returns P (after (λ _. k) (rescue (λ e. pure tt) r s).0 (rescue (λ e. pure tt) r s).1)
  swallowed p (ok u) s k b h = h s b
  swallowed p (throw e) s k b h = h s b

  killed :
      (r : Outcome (Unit {0})) (s : State S.machine)
      → Quiet S alive Fresh s
      → Returns (λ _ t. Quiet S alive Fresh t) (rescue (λ e. pure tt) r s)
  killed (ok u) s h = returned h
  killed (throw e) s h = returned h

  kill_lem :
      (p : S.machine.Process) (s : State S.machine)
      → But p s.world
      → Returns (λ _ t. Quiet S alive Fresh t) (kill_running S.machine p s)
  unfolding kill_running lift
  kill_lem p s but = elim (Bool-cases (alive p s.world)) [
    | inl e ↦
        let runs : S.machine.is_running p s.world ≡ some true =
          T.killable.tells p s.world ∙ ap some e in
        let v = (S.machine.kill p s.world).1 in
        rw (runs, kill_running)
          (killed (S.machine.kill p s.world).0 (record s { world = v })
            (all_dead p v (record s { world = v }) refl
              (But-still p s.world v (λ q. T.at_kill p q s.world) but)
              (T.killable.kills p s.world)))
    | inr e ↦
        let runs : S.machine.is_running p s.world ≡ some false =
          T.killable.tells p s.world ∙ ap some e in
        rw (runs, kill_running) (returned (all_dead p s.world s refl but e))
  ]

  with_daemon :
      (p : S.machine.Process) (s : State S.machine)
      → s.daemon ≡ some p
      → But p s.world
      → Returns (λ _ t. Quiet S alive Fresh t) (stop S.machine s)
  unfolding stop lift
  with_daemon p s h but =
      let v = (S.machine.terminate p s.world).1 in
      rw (h, stop)
        (swallowed p (S.machine.terminate p s.world).0 (record s { world = v }) _
          (But-still p s.world v (λ q. T.at_terminate p q s.world) but)
          (λ t left. rw (T.killable.waits p t.world) (
            let u = (S.machine.wait_finished p t.world).1 in
            >>=-Ends _
              (kill_lem p (record t { world = u })
                (But-still p t.world u (λ q. T.at_wait p q t.world) left))
              (λ _ x dead. returned dead))))

  no_daemon :
      (s : State S.machine)
      → s.daemon ≡ none
      → Quiet S alive Fresh s
      → Returns (λ _ t. Quiet S alive Fresh t) (stop S.machine s)
  unfolding stop
  no_daemon s h dead = rw (h, stop) (returned dead)

  state_of :
      {A : Type 0} {P : State S.machine → Type 0} {r : Outcome A × State S.machine}
      → Returns (λ _ t. P t) r
      → P r.1
  state_of (returned h) = h
  state_of (threw never) = absurd never

  -- Where none but the bridge's daemon is alive.
  pub stop-Quiet :
      (s : State S.machine) → Only S alive Fresh s → Quiet S alive Fresh (stop S.machine s).1
  stop-Quiet s only = elim (Option-cases s.daemon) [
    | inl e ↦ state_of (
        no_daemon s e (λ q f. elim (only q f) [
          | inl here ↦ absurd (none_some q (sym e ∙ here))
          | inr gone ↦ gone
        ]))
    | inr (p, e) ↦ state_of (
        with_daemon p s e (λ q f. elim (only q f) [
          | inl here ↦ inl (some_some p q (sym e ∙ here))
          | inr gone ↦ inr gone
        ]))
  ]
    where
      none_some : (q : S.machine.Process) → none ≡ some q → ⊥
      none_some q h = cc

      some_some : (p q : S.machine.Process) → some p ≡ some q → p ≡ q
      some_some p q h = cc
