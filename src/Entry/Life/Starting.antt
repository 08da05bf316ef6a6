-- ===== src/Entry/Life/Starting.antt =====
-- `start` of pjsr/lib/SidecarBridge.js: what it leaves alive.
use distributed_wbpp.Prelude.{
  ◌≡◌, refl, ap, ◌⊎◌, inl, inr, Bool, true, false, not, some, Outcome, Text, ok, throw, arith,
  Bool-cases, is_empty, if◌then◌else◌,
}
use distributed_wbpp.Calls.{pure, after, rescue, Ends, returned, threw, >>=-Ends}
use distributed_wbpp.Bridge.Daemon.{
  Config, State, key_file, lift, clear_stale, launch, remove_key, check_started, is_started,
  is_stopped, daemon_args, start,
}
use distributed_wbpp.Entry.{Script}
use distributed_wbpp.Entry.Life.{IsTidy, Quiet, Only, Before}

module _ {W : Type 0} (S : Script W) (alive : S.machine.Process → W → Bool) (T : IsTidy S alive)
    (Fresh : S.machine.Process → Type 0) where
  abbrev Q : State S.machine → Type 0
  Q s = Quiet S alive Fresh s

  abbrev B : State S.machine → Type 0
  B s = Before S alive Fresh s

  written :
      (f t : Text) (s : State S.machine)
      → B s
      → Ends (λ _ u. B u) Q (lift S.machine (S.machine.write_file f t) s)
  unfolding lift
  written f t s (e, h) = go (S.machine.write_file f t s.world).0
    where
      v : W
      v = (S.machine.write_file f t s.world).1

      go : (r : Outcome (Unit {0})) → Ends (λ _ u. B u) Q (r, record s { world = v })
      go (ok u) = returned (e, λ q f'. T.at_write f t q s.world (h q f'))
      go (throw m) = threw (λ q f'. T.at_write f t q s.world (h q f'))

  cleared :
      (c : Config) (s : State S.machine) → B s → Ends (λ _ u. B u) Q (clear_stale S.machine c s)
  unfolding clear_stale lift
  cleared c s (e, h) = elim (Bool-cases c.kill_stale) [
    | inr k ↦ rw k (returned (e, h))
    | inl k ↦ rw k (go (S.machine.task_kill s.world).0)
  ]
    where
      v : W
      v = (S.machine.task_kill s.world).1

      quiet : (q : S.machine.Process) → Fresh q → alive q (S.machine.sleep 400 v) ≡ false
      quiet q f = T.at_sleep q v (T.at_task_kill q s.world (h q f))

      go :
          (r : Outcome (Unit {0}))
          → Ends
              (λ _ u. B u)
              Q
              (after
                (λ _ t. (ok tt, record t { world = S.machine.sleep 400 t.world }))
                (rescue (λ _. pure tt) r (record s { world = v })).0
                (rescue (λ _. pure tt) r (record s { world = v })).1)
      go (ok u) = returned (e, quiet)
      go (throw m) = returned (e, quiet)

  -- After a launch that gave this.
  abbrev Launched : Bool → State S.machine → Type 0
  Launched started s = Only S alive Fresh s × (started ≡ false → Q s)

  launched : (c : Config) (s : State S.machine) → B s → Ends Launched Q (launch S.machine c s)
  unfolding launch
  launched c s (e, h) =
      go (S.machine.start c.binary_path (daemon_args c) s.world)
        (T.starts c.binary_path (daemon_args c) s.world)
        (T.unstarted c.binary_path (daemon_args c) s.world)
    where
      dead :
          (p : S.machine.Process) (w : W)
          → ((q : S.machine.Process) → alive q s.world ≡ false → (p ≡ q) ⊎ (alive q w ≡ false))
          → alive p w ≡ false
          → (q : S.machine.Process) → Fresh q
          → alive q w ≡ false
      dead p w one gone q f = elim (one q (h q f)) [ inl same ↦ rw (← same) gone | inr k ↦ k ]

      go :
          (r : Outcome Bool × (S.machine.Process × W))
          → ((q : S.machine.Process)
              → alive q s.world ≡ false
              → (r.1.0 ≡ q) ⊎ (alive q r.1.1 ≡ false))
          → (is_started S.machine r.0 ≡ false → alive r.1.0 r.1.1 ≡ false)
          → Ends Launched Q (
            r.0,
            record {
              daemon = some r.1.0;
              world = if is_started S.machine r.0 then S.machine.sleep 800 r.1.1 else r.1.1;
            },
          )
      go (throw m, (p, w)) one unstarted = threw (dead p w one (unstarted refl))
      go (ok false, (p, w)) one unstarted =
          let gone = dead p w one (unstarted refl) in returned ((λ q f. inr (gone q f)), λ _. gone)
      go (ok true, (p, w)) one unstarted = returned (
        (λ q f. elim (one q (h q f)) [
          | inl same ↦ inl (ap some same)
          | inr k ↦ inr (T.at_wake q w k)
        ]),
        λ no. absurd cc,
      )

  key_removed :
      (f : Text) (started : Bool) (s : State S.machine)
      → Launched started s
      → Ends (λ _ u. Launched started u) Q (remove_key S.machine f s)
  unfolding remove_key
  key_removed f started s (only, quiet) = elim (Bool-cases (S.machine.file_exists f s.world)) [
    | inr e ↦ rw e (returned (only, quiet))
    | inl e ↦ rw e (
        returned (
          (λ q f'. elim (only q f') [
            | inl here ↦ inl here
            | inr k ↦ inr (T.at_remove f q s.world k)
          ]),
          λ no q f'. T.at_remove f q s.world (quiet no q f'),
        ))
  ]

  stopped : (s : State S.machine) → Only S alive Fresh s → is_stopped S.machine s ≡ true → Q s
  stopped s only h q f = elim (only q f) [
    | inr gone ↦ gone
    | inl here ↦
        let told : S.machine.is_running q s.world ≡ some (alive q s.world) =
          T.killable.tells q s.world in
        let k : not (alive q s.world) ≡ true = rw (here, told) at h in ground arith
  ]

  checked :
      (c : Config) (started : Bool) (s : State S.machine)
      → Launched started s
      → Ends (λ _ u. Only S alive Fresh u) Q (check_started S.machine c started s)
  unfolding check_started
  checked c false s (only, quiet) = threw (quiet refl)
  checked c true s (only, quiet) = elim (Bool-cases (is_stopped S.machine s)) [
    | inl e ↦ rw e (threw (stopped s only e))
    | inr e ↦ rw e (returned only)
  ]

  -- A start that returns leaves none alive but the daemon, and one that throws leaves none.
  pub start-Only :
      (c : Config) (s : State S.machine)
      → B s
      → Ends (λ _ t. Only S alive Fresh t) Q (start S.machine c s)
  unfolding start
  start-Only c s (e, h) = elim (Bool-cases (is_empty c.cluster_key)) [
    | inl k ↦ rw k (threw h)
    | inr k ↦ rw k (
        >>=-Ends _ (written (key_file c) c.cluster_key s (e, h)) (λ _ t b.
          >>=-Ends _ (cleared c t b) (λ _ u b'. >>=-Ends _ (launched c u b') (λ started v l.
            >>=-Ends _ (key_removed (key_file c) started v l) (λ _ x l'. checked c started x l')))))
  ]
