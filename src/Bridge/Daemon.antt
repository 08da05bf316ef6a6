-- ===== src/Bridge/Daemon.antt =====
-- The life of the sidecar's daemon in pjsr/lib/SidecarBridge.js: start and stop, with the key file.
pub mod KeyFile
pub mod Stopping
use distributed_wbpp.Prelude.{
  ℕ, ◌≡◌, ◌≢◌, refl, ◌∙◌, ◌↔◌, inl, inr, Bool, true, false, not, ◌&&◌, ◌||◌, Option, none, some,
  List, [], ◌∷◌, ◌++◌, Text, text, Outcome, ok, throw, arith, if◌then◌else◌, is_empty, Bool-cases,
  Outcome-cases, Option-cases,
}
use distributed_wbpp.Calls.{Call, pure, raise, ◌>>=◌, ◌>>◌, attempt}

pub data Role : Type 0 where
  worker server : Role

-- The options of a bridge, and its `_session`.
pub record Config : Type 0 where
  pub binary_path : Text
  pub cluster_key : Text
  pub key_dir : Text
  pub role : Role
  pub pi_version : Text
  pub wbpp_version : Text
  pub data_dir : Text
  pub worker_port : Text
  pub control_port : Text
  pub peers : Text
  pub log_dir : Text
  pub kill_stale : Bool
  pub session : Text

-- The files and processes. `start` is the start of a process with what `waitForStarted` says; `is_running` is
-- none where a process does not say.
pub record Machine (W : Type 0) : Type 1 where
  pub Process : Type 0
  pub file_exists : Text → W → Bool
  pub write_file : Text → Text → W → Outcome (Unit {0}) × W
  pub remove_file : Text → W → Outcome (Unit {0}) × W
  pub task_kill : W → Outcome (Unit {0}) × W
  pub sleep : ℕ → W → W
  pub start : Text → List Text → W → Outcome Bool × (Process × W)
  pub is_running : Process → W → Option Bool
  pub terminate : Process → W → Outcome (Unit {0}) × W
  pub wait_finished : Process → W → Outcome (Unit {0}) × W
  pub kill : Process → W → Outcome (Unit {0}) × W

unfoldable pub key_file : Config → Text
key_file c = c.key_dir ++ (text "/wbpp-key-" ++ (c.session ++ text ".txt"))

abbrev pub role_text : Role → Text
role_text worker = text "worker"
role_text server = text "agent"

abbrev pub common_args : Config → List Text
common_args c =
    text "--secret-file"
    ∷ key_file c
    ∷ text "--pi-version"
    ∷ c.pi_version
    ∷ text "--wbpp-version"
    ∷ c.wbpp_version
    ∷ []

abbrev pub log_args : Config → List Text
log_args c =
    if is_empty c.log_dir
    then []
    else text "--log-file"
      ∷ (c.log_dir ++ (text "/sidecar-" ++ (role_text c.role ++ text ".log")))
      ∷ []

abbrev role_args : Role → Config → List Text
role_args worker c =
    text "--mode"
    ∷ text "worker"
    ∷ text "--executor"
    ∷ text "pull"
    ∷ text "--port"
    ∷ c.worker_port
    ∷ text "--control-port"
    ∷ c.control_port
    ∷ text "--dir"
    ∷ c.data_dir
    ∷ []
role_args server c =
    (text "--mode"
      ∷ text "agent"
      ∷ text "--control-port"
      ∷ c.control_port
      ∷ text "--postfix"
      ∷ []
      ∷ [])
    ++ (if is_empty c.peers then [] else text "--peers" ∷ c.peers ∷ [])

-- The command line: the key is not on it.
unfoldable pub daemon_args : Config → List Text
unfolding key_file
daemon_args c = role_args c.role c ++ (common_args c ++ log_args c)

module _ {W : Type 0} (M : Machine W) where
  pub record State : Type 0 where
    pub daemon : Option M.Process
    pub world : W

  unfoldable pub lift : {A : Type 0} → (W → Outcome A × W) → Call State A
  lift m s = let (a, w) = m s.world in (a, record s { world = w })

  abbrev pause : ℕ → Call State (Unit {0})
  pause n s = (ok tt, record s { world = M.sleep n s.world })

  unfoldable pub clear_stale : Config → Call State (Unit {0})
  unfolding lift
  clear_stale c =
      if c.kill_stale then (do attempt (lift M.task_kill) (λ e. pure tt); pause 400) else pure tt

  -- `try { if ( File.exists( f ) ) File.remove( f ); } catch ( e ) {}`
  unfoldable pub remove_key : Text → Call State (Unit {0})
  remove_key f s = (
    ok tt,
    if M.file_exists f s.world then record s { world = (M.remove_file f s.world).1 } else s,
  )

  abbrev pub is_started : Outcome Bool → Bool
  is_started (ok b) = b
  is_started (throw e) = false

  unfoldable pub launch : Config → Call State Bool
  unfolding daemon_args
  launch c s =
      let (started, (p, w)) = M.start c.binary_path (daemon_args c) s.world in
      (started, record { daemon = some p; world = if is_started started then M.sleep 800 w else w })

  abbrev has_stopped : Option Bool → Bool
  has_stopped none = false
  has_stopped (some running) = not running

  abbrev pub is_stopped : State → Bool
  is_stopped s = elim (s.daemon) [ none ↦ false | some p ↦ has_stopped (M.is_running p s.world) ]

  abbrev pub log_or_name : Config → Text
  log_or_name c = if is_empty c.log_dir then text "its log" else c.log_dir

  unfoldable pub check_started : Config → Bool → Call State (Unit {0})
  check_started c started s =
      if not started
      then (throw (text "Failed to start sidecar: " ++ c.binary_path), s)
      else if is_stopped s
      then (throw (text "the sidecar stopped at startup (see " ++ (log_or_name c ++ text ")")), s)
      else (ok tt, s)

  -- start
  unfoldable pub start : Config → Call State (Unit {0})
  unfolding lift clear_stale launch remove_key check_started
  start c = if is_empty c.cluster_key then raise (text "no cluster key") else do
    lift (M.write_file (key_file c) c.cluster_key)
    clear_stale c
    started ← launch c
    remove_key (key_file c)
    check_started c started

  -- `try { if ( this.daemon.isRunning && this.daemon.kill ) this.daemon.kill(); } catch ( e ) {}`
  unfoldable pub kill_running : M.Process → Call State (Unit {0})
  unfolding lift
  kill_running p s = elim (M.is_running p s.world) [
    | some true ↦ attempt (lift (M.kill p)) (λ e. pure tt) s
    | _ ↦ (ok tt, s)
  ]

  -- stop
  unfoldable pub stop : Call State (Unit {0})
  unfolding lift kill_running
  stop s = elim (s.daemon) [
    | none ↦ (ok tt, s)
    | some p ↦
        (do
          attempt (lift (M.terminate p)) (λ e. pure tt)
          lift (M.wait_finished p)
          kill_running p
          λ t. (ok tt, record t { daemon = none }))
          s
  ]
