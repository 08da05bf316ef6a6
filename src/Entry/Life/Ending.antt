-- ===== src/Entry/Life/Ending.antt =====
-- `main` of pjsr/DistributedWBPP.js, in whatever way it ends.
use distributed_wbpp.Prelude.{
  ℕ, ◌≡◌, refl, inl, inr, Bool, true, false, Option, none, some, List, [], ◌∷◌, Text, Outcome, ok,
  throw, Bool-cases, ◌==◌, if◌then◌else◌,
}
use distributed_wbpp.Calls.{Call, ◌>>=◌, ◌>>◌, after, Ends, returned, threw}
use distributed_wbpp.Transfer.{Entry}
use distributed_wbpp.Bridge.Daemon.{Role, worker, server, State, start, stop}
use distributed_wbpp.Entry.{
  Script, call, Platform, windows, mac, other_platform, ask_version, sidecar_runs, first_running,
  make_executable, first_repaired, or_repaired, resolve_present, resolve_sidecar, clear_entries,
  clear_cache, is_skipped, run_server, run_worker, run_role, clear_if_worker, run_started,
  run_picked, after_pick, after_resolve, main,
}
use distributed_wbpp.Entry.Life.{
  IsTidy, Still, Quiet, Only, Before, Keeping, after-Keeping, ended_keeps,
}
use distributed_wbpp.Entry.Life.Stopping.{stop-Quiet}
use distributed_wbpp.Entry.Life.Starting.{start-Only}

module _ {W : Type 0} (S : Script W) (alive : S.machine.Process → W → Bool)
    (T : IsTidy S alive) where
  -- Calls of the shell, which start other processes.
  still_after :
      {A B : Type 0} (q : S.machine.Process) (f : A → Call W B) (r : Outcome A) (w : W)
      → alive q w ≡ false
      → ((a : A) (v : W) → alive q v ≡ false → alive q (f a v).1 ≡ false)
      → alive q (after f r w).1 ≡ false
  still_after q f (ok a) w h k = k a w h
  still_after q f (throw e) w h k = h

  ask-Still : (f : Text) → Still alive (λ w. (sidecar_runs S.shell f w).1)
  unfolding sidecar_runs ask_version
  ask-Still f q w h = still_after q _ (S.shell.start f _ w).0 _ (T.at_shell f _ q w h) (λ p v k.
      still_after q _ (S.shell.wait_started p v).0 _ (T.at_started p q v k)
        (λ b u l. waited b p q u l))
    where
      waited :
          (b : Bool) (p : S.shell.Process) (q : S.machine.Process) (u : W)
          → alive q u ≡ false
          → alive q
              ((if b
                  then (S.shell.wait_finished p >> λ v. (ok (S.shell.exit_code p v == 0), v))
                  else (λ v. (ok false, v)))
                u).1
            ≡ false
      waited true p q u l =
          still_after q _ (S.shell.wait_finished p u).0 _ (T.at_finished p q u l) (λ _ v k. k)
      waited false p q u l = l

  executable-Still : (f : Text) → Still alive (λ w. make_executable S.shell f w)
  unfolding make_executable
  executable-Still f q w h =
      still_after q _ (S.shell.start _ _ w).0 _ (T.at_shell _ _ q w h)
        (λ p v k. T.at_finished p q v k)

  running-Still : (fs : List Text) → Still alive (λ w. (first_running S.shell fs w).1)
  unfolding first_running
  running-Still [] q w h = h
  running-Still (f ∷ fs) q w h = elim (Bool-cases (sidecar_runs S.shell f w).0) [
    | inl e ↦ rw e (ask-Still f q w h)
    | inr e ↦ rw e (running-Still fs q _ (ask-Still f q w h))
  ]

  repaired-Still : (fs : List Text) → Still alive (λ w. (first_repaired S.shell fs w).1)
  unfolding first_repaired
  repaired-Still [] q w h = h
  repaired-Still (f ∷ fs) q w h =
      let v = make_executable S.shell f w in
      let k = ask-Still f q v (executable-Still f q w h) in
      elim (Bool-cases (sidecar_runs S.shell f v).0) [
        | inl e ↦ rw e k
        | inr e ↦ rw e (repaired-Still fs q _ k)
      ]

  or_repaired-Still :
      (fs : List Text) (q : S.machine.Process) (r : Option Text × W)
      → alive q r.1 ≡ false
      → alive q (or_repaired S.shell fs r).1 ≡ false
  or_repaired-Still fs q (some f, w) h = h
  or_repaired-Still fs q (none, w) h = repaired-Still fs q w h

  present-Still :
      (p : Platform) (fs : List Text) → Still alive (λ w. (resolve_present S.shell p fs w).1)
  present-Still windows fs q w h = h
  present-Still mac fs q w h = or_repaired-Still fs q _ (running-Still fs q w h)
  present-Still other_platform fs q w h = or_repaired-Still fs q _ (running-Still fs q w h)

  resolve-Still : Still alive (λ w. (resolve_sidecar S.shell S.platform S.here w).1)
  unfolding resolve_sidecar
  resolve-Still q w h = present-Still S.platform _ q w h

  entries-Still :
      (dir : Text) (es : List Entry) (n : ℕ)
      → Still alive (λ w. (clear_entries S.shell dir es n w).1)
  unfolding clear_entries
  entries-Still dir [] n q w h = h
  entries-Still dir (e ∷ es) n q w h = elim (Bool-cases (is_skipped S.shell e)) [
    | inl k ↦ rw k (entries-Still dir es n q w h)
    | inr k ↦ rw k (entries-Still dir es _ q _ (T.at_clear _ q w h))
  ]

  cache-Still : Still alive (λ w. (clear_cache S.shell S.cache_dir w).1)
  unfolding clear_cache
  cache-Still q w h = elim (Bool-cases (S.shell.directory_exists S.cache_dir w)) [
    | inl e ↦ rw e (entries-Still S.cache_dir (S.shell.entries S.cache_dir w) 0 q w h)
    | inr e ↦ rw e h
  ]

  module _ (Fresh : S.machine.Process → Type 0) where
    abbrev Q : State S.machine → Type 0
    Q s = Quiet S alive Fresh s

    abbrev O : State S.machine → Type 0
    O s = Only S alive Fresh s

    abbrev B : State S.machine → Type 0
    B s = Before S alive Fresh s

    quiet_call :
        {A : Type 0} (m : W → Outcome A × W) → Still alive (λ w. (m w).1) → Keeping Q (call S m)
    quiet_call m still s h q f = still q s.world (h q f)

    only_call :
        {A : Type 0} (m : W → Outcome A × W) → Still alive (λ w. (m w).1) → Keeping O (call S m)
    only_call m still s h q f = elim (h q f) [
      | inl here ↦ inl here
      | inr gone ↦ inr (still q s.world gone)
    ]

    before_call :
        {A : Type 0} (m : W → Outcome A × W) → Still alive (λ w. (m w).1) → Keeping B (call S m)
    before_call m still s (e, h) = (e, λ q f. still q s.world (h q f))

    then_keeps :
        (P : State S.machine → Type 0) (m k : Call (State S.machine) (Unit {0}))
        → Keeping P m
        → Keeping P k
        → Keeping P (m >> k)
    then_keeps P m k h g s p = after-Keeping P (λ _. k) (m s).0 (m s).1 (h s p) (λ _. g)

    role_keeps : (r : Role) → Keeping O (run_role S r)
    unfolding run_server run_worker
    role_keeps server = then_keeps O (call S S.install) _ (only_call S.install T.at_install) (λ s h.
        ended_keeps O (call S S.run_native s).0 _ (
          then_keeps O (call S S.recap) (call S S.remove_temp_dirs) (only_call S.recap T.at_recap)
            (only_call S.remove_temp_dirs T.at_temp_dirs) _
            (only_call S.run_native T.at_native s h)))
    role_keeps worker =
        then_keeps O (call S S.ensure_data_dir) (call S S.work)
          (only_call S.ensure_data_dir T.at_data_dir) (only_call S.work T.at_work)

    clear_quiet : (r : Role) → Keeping Q (clear_if_worker S r)
    clear_quiet server s h = h
    clear_quiet worker s h =
        quiet_call (λ w. (ok tt, (clear_cache S.shell S.cache_dir w).1)) cache-Still s h

    clear_before : (r : Role) → Keeping B (clear_if_worker S r)
    clear_before server s h = h
    clear_before worker s h =
        before_call (λ w. (ok tt, (clear_cache S.shell S.cache_dir w).1)) cache-Still s h

    started_quiet :
        (role : Role) (r : Outcome (Unit {0}) × State S.machine)
        → Ends (λ _ t. O t) Q r
        → Q (run_started S role r.0 r.1).1
    unfolding run_started
    started_quiet server _ (threw {s = t} h) = quiet_call S.run_native T.at_native t h
    started_quiet worker _ (threw {s = t} h) = quiet_call (S.show_message _) (T.at_message _) t h
    started_quiet role _ (returned {s = t} h) =
        let u = (run_role S role t).1 in
        ended_keeps Q (run_role S role t).0 _ (
          after-Keeping Q (λ _. clear_if_worker S role) (stop S.machine u).0 (stop S.machine u).1
            (stop-Quiet S alive T Fresh u (role_keeps role t h)) (λ _. clear_quiet role))

    -- From before the start to the end.
    abbrev Ending : Call (State S.machine) (Unit {0}) → Type 0
    Ending m = (s : State S.machine) → B s → Q (m s).1

    then-Ending :
        {A : Type 0} (m : Call (State S.machine) A) (k : A → Call (State S.machine) (Unit {0}))
        → Keeping B m
        → ((a : A) → Ending (k a))
        → Ending (m >>= k)
    then-Ending {A} m k h g s b = go (m s).0 (m s).1 (h s b)
      where
        go : (r : Outcome A) (t : State S.machine) → B t → Q (after k r t).1
        go (ok a) t c = g a t c
        go (throw e) t c = c.1

    picked_quiet :
        (sidecar : Text) (role : Role) (key : Text) → Ending (run_picked S sidecar role key)
    unfolding run_picked
    picked_quiet sidecar role key =
        then-Ending (call S S.ensure_user_dir) _ (before_call S.ensure_user_dir T.at_user_dir) (λ _.
          then-Ending (clear_if_worker S role) _ (clear_before role) (λ _.
            then-Ending (call S S.ensure_log_dir) _ (before_call S.ensure_log_dir T.at_log_dir)
              (λ _ s b.
                started_quiet role (start S.machine (S.config role sidecar key) s)
                  (start-Only S alive T Fresh (S.config role sidecar key) s b))))

    pick_quiet : (sidecar : Text) (p : Option (Role × Text)) → Ending (after_pick S sidecar p)
    pick_quiet sidecar none s b = b.1
    pick_quiet sidecar (some (role, key)) s b = picked_quiet sidecar role key s b

    resolve_quiet : (r : Option Text) → Ending (after_resolve S r)
    resolve_quiet none s b = quiet_call (S.show_message _) (T.at_message _) s b.1
    resolve_quiet (some sidecar) s (e, h) =
        let v = (S.pick sidecar s.world).1 in
        pick_quiet sidecar (S.pick sidecar s.world).0 (record s { world = v })
          (e, λ q f. T.at_pick sidecar q s.world (h q f))

    pub main_quiet : Ending (main S)
    unfolding main
    main_quiet =
        then-Ending (call S S.check_version) _ (before_call S.check_version T.at_version)
          (λ _ s (e, h).
            let v = (resolve_sidecar S.shell S.platform S.here s.world).1 in
            resolve_quiet (resolve_sidecar S.shell S.platform S.here s.world).0
              (record s { world = v }) (e, λ q f. resolve-Still q s.world (h q f)))

  -- When the entry script ends, in whatever way (WBPP or the client's dialog threw, the role dialog was
  -- left, no binary was found, the sidecar did not start), no process is alive that was not alive when it
  -- began: the daemon that it started is stopped. It is taken that a process tells whether it is alive, that
  -- the wait for its end returns, that a kill kills, that a start makes no other process alive than the
  -- one it gives, and not that one where it throws or says that it has not started, and that no other call
  -- makes one alive.
  pub main_lem :
      (w : W) (q : S.machine.Process)
      → alive q w ≡ false
      → alive q (main S (record { daemon = none; world = w })).1.world ≡ false
  main_lem w q h =
      main_quiet (λ p. alive p w ≡ false) (record { daemon = none; world = w })
        (refl, λ p gone. gone) q h
