-- ===== src/Entry/Life.antt =====
-- The sidecar's life in pjsr/DistributedWBPP.js.
pub mod Starting
pub mod Stopping
pub mod Ending
use distributed_wbpp.Prelude.{◌≡◌, ◌⊎◌, inl, inr, Bool, false, Option, none, some, List, Text}
use distributed_wbpp.Calls.{Call, after}
use distributed_wbpp.Prelude.{Outcome, ok, throw}
use distributed_wbpp.Bridge.Daemon.{State, is_started}
use distributed_wbpp.Bridge.Daemon.Stopping.{IsKillable}
use distributed_wbpp.Entry.{Script, ended}

-- A step of the world makes no process alive that was not.
abbrev pub Still : {W Q : Type 0} → (Q → W → Bool) → (W → W) → Type 0
Still {W} {Q} alive step = (q : Q) (w : W) → alive q w ≡ false → alive q (step w) ≡ false

-- The daemon's processes: they tell whether they are alive, the wait for their end returns, and a kill kills;
-- a start makes no other process alive than the one that it gives, and not that one where it throws or says
-- that it has not started; and no other call makes one alive.
pub record IsTidy {W : Type 0} (S : Script W) (alive : S.machine.Process → W → Bool) : Type 0 where
  pub killable : IsKillable S.machine alive
  pub starts :
      (f : Text) (args : List Text) (w : W) (q : S.machine.Process)
      → alive q w ≡ false
      → ((S.machine.start f args w).1.0 ≡ q) ⊎ (alive q (S.machine.start f args w).1.1 ≡ false)
  pub unstarted :
      (f : Text) (args : List Text) (w : W)
      → is_started S.machine (S.machine.start f args w).0 ≡ false
      → alive (S.machine.start f args w).1.0 (S.machine.start f args w).1.1 ≡ false
  pub at_write : (f t : Text) → Still alive (λ w. (S.machine.write_file f t w).1)
  pub at_remove : (f : Text) → Still alive (λ w. (S.machine.remove_file f w).1)
  pub at_task_kill : Still alive (λ w. (S.machine.task_kill w).1)
  pub at_sleep : Still alive (λ w. S.machine.sleep 400 w)
  pub at_wake : Still alive (λ w. S.machine.sleep 800 w)
  pub at_terminate : (p : S.machine.Process) → Still alive (λ w. (S.machine.terminate p w).1)
  pub at_wait : (p : S.machine.Process) → Still alive (λ w. (S.machine.wait_finished p w).1)
  pub at_kill : (p : S.machine.Process) → Still alive (λ w. (S.machine.kill p w).1)
  pub at_shell : (f : Text) (args : List Text) → Still alive (λ w. (S.shell.start f args w).1)
  pub at_started : (p : S.shell.Process) → Still alive (λ w. (S.shell.wait_started p w).1)
  pub at_finished : (p : S.shell.Process) → Still alive (λ w. (S.shell.wait_finished p w).1)
  pub at_clear : (f : Text) → Still alive (λ w. (S.shell.remove_file f w).1)
  pub at_version : Still alive (λ w. (S.check_version w).1)
  pub at_pick : (s : Text) → Still alive (λ w. (S.pick s w).1)
  pub at_user_dir : Still alive (λ w. (S.ensure_user_dir w).1)
  pub at_log_dir : Still alive (λ w. (S.ensure_log_dir w).1)
  pub at_data_dir : Still alive (λ w. (S.ensure_data_dir w).1)
  pub at_message : (t : Text) → Still alive (λ w. (S.show_message t w).1)
  pub at_install : Still alive (λ w. (S.install w).1)
  pub at_native : Still alive (λ w. (S.run_native w).1)
  pub at_recap : Still alive (λ w. (S.recap w).1)
  pub at_temp_dirs : Still alive (λ w. (S.remove_temp_dirs w).1)
  pub at_work : Still alive (λ w. (S.work w).1)

module _ {W : Type 0} (S : Script W) (alive : S.machine.Process → W → Bool)
    (Fresh : S.machine.Process → Type 0) where
  -- None of these processes is alive; and none but the bridge's daemon.
  abbrev pub Quiet : State S.machine → Type 0
  Quiet s = (q : S.machine.Process) → Fresh q → alive q s.world ≡ false

  abbrev pub Only : State S.machine → Type 0
  Only s = (q : S.machine.Process) → Fresh q → (s.daemon ≡ some q) ⊎ (alive q s.world ≡ false)

  -- Before a start.
  abbrev pub Before : State S.machine → Type 0
  Before s = (s.daemon ≡ none) × Quiet s

-- What a call keeps, whether it returns or throws.
abbrev pub Keeping : {T A : Type 0} → (T → Type 0) → Call T A → Type 0
Keeping {T} P m = (s : T) → P s → P (m s).1

pub after-Keeping :
    {T A B : Type 0} (P : T → Type 0) (f : A → Call T B) (r : Outcome A) (s : T)
    → P s
    → ((a : A) → Keeping P (f a))
    → P (after f r s).1
after-Keeping P f (ok a) s h k = k a s h
after-Keeping P f (throw e) s h k = h

pub ended_keeps :
    {T A : Type 0} (P : T → Type 0) (r : Outcome A) (q : Outcome (Unit {0}) × T)
    → P q.1
    → P (ended r q).1
ended_keeps P r (ok u, t) h = h
ended_keeps P r (throw e, t) h = h
