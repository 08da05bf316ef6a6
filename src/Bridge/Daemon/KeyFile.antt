-- ===== src/Bridge/Daemon/KeyFile.antt =====
-- The file with the cluster key, which pjsr/lib/SidecarBridge.js writes for the daemon, and when a start
-- succeeds.
use distributed_wbpp.Prelude.{
  ◌≡◌, refl, ◌↔◌, inl, inr, Bool, true, false, Text, Outcome, ok, throw, arith, is_empty,
  Bool-cases,
}
use distributed_wbpp.Calls.{pure, rescue}
use distributed_wbpp.Bridge.Daemon.{
  Machine, Config, State, key_file, lift, clear_stale, launch, remove_key, check_started,
  is_stopped, start,
}

-- The removal of a file that is there removes it.
abbrev pub Removes : {W : Type 0} → Machine W → Type 0
Removes {W} M =
    (f : Text) (w : W) → M.file_exists f w ≡ true → M.file_exists f (M.remove_file f w).1 ≡ false

module _ {W : Type 0} (M : Machine W) where
  remove_key_lem :
      Removes M → (f : Text) (s : State M) → M.file_exists f (remove_key M f s).1.world ≡ false
  unfolding remove_key
  remove_key_lem removes f s = elim (Bool-cases (M.file_exists f s.world)) [
    | inl e ↦ rw (e, remove_key) (removes f s.world e)
    | inr e ↦ rw (e, remove_key) e
  ]

  check_keeps : (c : Config) (b : Bool) (s : State M) → (check_started M c b s).1 ≡ s
  unfolding check_started
  check_keeps c b s = ground arith

  check_iff :
      (c : Config) (b : Bool) (s : State M)
      → ((check_started M c b s).0 ≡ ok tt) ↔ ((b ≡ true) × (is_stopped M s ≡ false))
  unfolding check_started
  check_iff c b s = ground arith

  swallowed : (r : Outcome (Unit {0}) × State M) → (rescue (λ e. pure tt) r.0 r.1).0 ≡ ok tt
  swallowed (ok u, s) = refl
  swallowed (throw e, s) = refl

  clear_stale_lem : (c : Config) (s : State M) → (clear_stale M c s).0 ≡ ok tt
  unfolding clear_stale
  clear_stale_lem c s = elim (Bool-cases c.kill_stale) [
    | inr e ↦ rw e refl
    | inl e ↦ rw (e, swallowed (lift M M.task_kill s)) refl
  ]

  -- The states before the launch and after it, with the key file removed.
  abbrev pub before_launch : Config → State M → State M
  before_launch c s = (clear_stale M c (lift M (M.write_file (key_file c) c.cluster_key) s).1).1

  abbrev pub after_launch : Config → State M → State M
  after_launch c s = (remove_key M (key_file c) (launch M c (before_launch c s)).1).1

  start_steps :
      (c : Config) (s : State M) (started : Bool)
      → is_empty c.cluster_key ≡ false
      → (M.write_file (key_file c) c.cluster_key s.world).0 ≡ ok tt
      → (launch M c (before_launch c s)).0 ≡ ok started
      → start M c s ≡ check_started M c started (after_launch c s)
  unfolding start lift
  start_steps c s started h k l =
      let w = (M.write_file (key_file c) c.cluster_key s.world).1 in
      rw (h, k, clear_stale_lem c (record s { world = w }), l) refl

  -- With a key, once its file is written, if the launch does not throw, and where a removal removes: a start
  -- leaves no key file, whether it returns or throws; it returns exactly if the daemon has started and has
  -- not stopped at once; and its state is that after the launch.
  pub start_lem :
      (c : Config) (s : State M) (started : Bool)
      → Removes M
      → is_empty c.cluster_key ≡ false
      → (M.write_file (key_file c) c.cluster_key s.world).0 ≡ ok tt
      → (launch M c (before_launch c s)).0 ≡ ok started
      → (M.file_exists (key_file c) (start M c s).1.world ≡ false)
        × (((start M c s).0 ≡ ok tt)
            ↔ ((started ≡ true) × (is_stopped M (after_launch c s) ≡ false)))
        × ((start M c s).1 ≡ after_launch c s)
  start_lem c s started removes h k l =
      let e = start_steps c s started h k l in
      let kept = check_keeps c started (after_launch c s) in
      rw e (
        rw kept (
          remove_key_lem removes (key_file c) (launch M c (before_launch c s)).1,
          check_iff c started (after_launch c s),
          refl,
        ))
