-- ===== src/Entry.antt =====
-- pjsr/DistributedWBPP.js: the choice of the sidecar's binary, the client's cache, the browser, and the
-- order of the entry script, with runServer and with runWorker of pjsr/lib/WorkerRuntime.js.
pub mod Resolve
pub mod Life
use distributed_wbpp.Prelude.{
  ℕ, suc, ◌+◌, Bool, true, false, not, ◌&&◌, ◌||◌, Option, none, some, List, [], ◌∷◌, ◌++◌, Text,
  text, Outcome, ok, throw, keep, if◌then◌else◌, ◌==◌, same_text,
}
use distributed_wbpp.Calls.{Call, pure, raise, ◌>>=◌, ◌>>◌, attempt}
use distributed_wbpp.Transfer.{Entry}
use distributed_wbpp.Bridge.Daemon.{Role, worker, server, Config, Machine, State, start, stop}

pub data Platform : Type 0 where
  windows mac other_platform : Platform

unfoldable pub sidecar_names : Platform → List Text
sidecar_names windows = text "wbpp-sidecar-windows-amd64.exe" ∷ []
sidecar_names mac = text "wbpp-sidecar-darwin-arm64" ∷ text "wbpp-sidecar-darwin-amd64" ∷ []
sidecar_names other_platform =
    text "wbpp-sidecar-linux-amd64" ∷ text "wbpp-sidecar-linux-arm64" ∷ []

unfoldable pub places : Text → List Text → List Text
places here [] = []
places here (n ∷ ns) = (here ++ (text "/bin/" ++ n)) ∷ (here ++ (text "/" ++ n)) ∷ places here ns

-- sidecarCandidates; `here` is `scriptDir()`.
unfoldable pub sidecar_candidates : Platform → Text → List Text
unfolding sidecar_names places
sidecar_candidates p here = places here (sidecar_names p)

-- ExternalProcess, and the files of a directory as FileFind finds them.
pub record Shell (W : Type 0) : Type 1 where
  pub Process : Type 0
  pub file_exists : Text → W → Bool
  pub directory_exists : Text → W → Bool
  pub start : Text → List Text → W → Outcome Process × W
  pub wait_started : Process → W → Outcome Bool × W
  pub wait_finished : Process → W → Outcome (Unit {0}) × W
  pub exit_code : Process → W → ℕ
  pub entries : Text → W → List Entry
  pub remove_file : Text → W → Outcome (Unit {0}) × W

module _ {W : Type 0} (S : Shell W) where
  -- The `try` of sidecarRuns.
  unfoldable pub ask_version : Text → Call W Bool
  ask_version path = do
    p ← S.start path (text "--version" ∷ [])
    started ← S.wait_started p
    if started then (do S.wait_finished p; λ w. (ok (S.exit_code p w == 0), w)) else pure false

  abbrev answer : Outcome Bool → Bool
  answer (ok b) = b
  answer (throw e) = false

  -- sidecarRuns
  unfoldable pub sidecar_runs : Text → W → Bool × W
  unfolding ask_version
  sidecar_runs path w = let (r, v) = ask_version path w in (answer r, v)

  -- The first of these that runs.
  unfoldable pub first_running : List Text → W → Option Text × W
  unfolding sidecar_runs
  first_running [] w = (none, w)
  first_running (p ∷ ps) w =
      let (b, v) = sidecar_runs p w in
      let later = first_running ps v in if b then (some p, v) else later

  -- `try { … X.start( "/bin/chmod", [ "u+x", present[ k ] ] ); X.waitForFinished(); } catch ( e ) {}`
  unfoldable pub make_executable : Text → W → W
  make_executable path w =
      ((do x ← S.start (text "/bin/chmod") (text "u+x" ∷ path ∷ []); S.wait_finished x) w).1

  unfoldable pub first_repaired : List Text → W → Option Text × W
  unfolding sidecar_runs make_executable
  first_repaired [] w = (none, w)
  first_repaired (p ∷ ps) w =
      let (b, v) = sidecar_runs p (make_executable p w) in
      let later = first_repaired ps v in if b then (some p, v) else later

  abbrev first_of : List Text → Option Text
  first_of [] = none
  first_of (p ∷ ps) = some p

  abbrev or_repaired : List Text → Option Text × W → Option Text × W
  or_repaired present (some p, w) = (some p, w)
  or_repaired present (none, w) = first_repaired present w

  abbrev resolve_present : Platform → List Text → W → Option Text × W
  resolve_present windows present w = (first_of present, w)
  resolve_present mac present w = or_repaired present (first_running present w)
  resolve_present other_platform present w = or_repaired present (first_running present w)

  -- resolveSidecar
  unfoldable pub resolve_sidecar : Platform → Text → W → Option Text × W
  unfolding sidecar_candidates first_running first_repaired
  resolve_sidecar p here w =
      resolve_present p (keep (λ f. S.file_exists f w) (sidecar_candidates p here)) w

  abbrev is_skipped : Entry → Bool
  is_skipped e = e.is_directory || (same_text e.name (text ".") || same_text e.name (text ".."))

  abbrev removed_or_not : Outcome (Unit {0}) → ℕ → ℕ
  removed_or_not (ok u) n = suc n
  removed_or_not (throw e) n = n

  unfoldable pub clear_entries : Text → List Entry → ℕ → W → ℕ × W
  clear_entries dir [] n w = (n, w)
  clear_entries dir (e ∷ es) n w =
      let (r, v) = S.remove_file (dir ++ (text "/" ++ e.name)) w in
      let next = clear_entries dir es (removed_or_not r n) v in
      let same = clear_entries dir es n w in if is_skipped e then same else next

  -- dwbppClearCache, of the directory `dwbppCacheDir()`
  unfoldable pub clear_cache : Text → W → ℕ × W
  unfolding clear_entries
  clear_cache dir w =
      if S.directory_exists dir w then clear_entries dir (S.entries dir w) 0 w else (0, w)

-- `m`, and then `fin`, whatever `m` does: `try { m } finally { fin }`.
abbrev pub ended : {W A : Type 0} → Outcome A → Outcome (Unit {0}) × W → Outcome A × W
ended r (ok u, w) = (r, w)
ended r (throw e, w) = (throw e, w)

abbrev pub finally : {W A : Type 0} → Call W A → Call W (Unit {0}) → Call W A
finally m fin w = let (r, v) = m w in ended r (fin v)

-- The parts of the entry script: `here` is `scriptDir()`; `config` the options of the SidecarBridge, for the chosen
-- binary and key; `pick` the role dialog, which gives a role and a key or none; `install` is installShim with what
-- is shown of it; `work` is the client's dialog. The message where no binary is found leaves the tried paths out.
pub record Script (W : Type 0) : Type 1 where
  pub shell : Shell W
  pub machine : Machine W
  pub platform : Platform
  pub here : Text
  pub cache_dir : Text
  pub config : Role → Text → Text → Config
  pub check_version : W → Outcome (Unit {0}) × W
  pub pick : Text → W → Option (Role × Text) × W
  pub ensure_user_dir : W → Outcome (Unit {0}) × W
  pub ensure_log_dir : W → Outcome (Unit {0}) × W
  pub ensure_data_dir : W → Outcome (Unit {0}) × W
  pub show_message : Text → W → Outcome (Unit {0}) × W
  pub install : W → Outcome (Unit {0}) × W
  pub run_native : W → Outcome (Unit {0}) × W
  pub recap : W → Outcome (Unit {0}) × W
  pub remove_temp_dirs : W → Outcome (Unit {0}) × W
  pub work : W → Outcome (Unit {0}) × W

module _ {W : Type 0} (S : Script W) where
  -- The world, with the daemon that the script's bridge has.
  abbrev pub Running : Type 0
  Running = State S.machine

  abbrev pub call : {A : Type 0} → (W → Outcome A × W) → Call Running A
  call m s = let (a, w) = m s.world in (a, record s { world = w })

  -- runServer
  unfoldable pub run_server : Call Running (Unit {0})
  run_server = do
    call S.install
    finally (call S.run_native) (do call S.recap; call S.remove_temp_dirs)

  -- runWorker
  unfoldable pub run_worker : Call Running (Unit {0})
  run_worker = do call S.ensure_data_dir; call S.work

  abbrev pub run_role : Role → Call Running (Unit {0})
  run_role server = run_server
  run_role worker = run_worker

  abbrev pub clear_if_worker : Role → Call Running (Unit {0})
  clear_if_worker server = pure tt
  clear_if_worker worker = call (λ w. (ok tt, (clear_cache S.shell S.cache_dir w).1))

  -- What is done where the sidecar does not start: a server runs WBPP without it.
  abbrev pub without_sidecar : Role → Text → Call Running (Unit {0})
  without_sidecar server e = call S.run_native
  without_sidecar worker e = call (S.show_message (text "Could not start the sidecar: " ++ e))

  unfoldable pub run_started : Role → Outcome (Unit {0}) → Call Running (Unit {0})
  unfolding stop clear_cache run_server run_worker
  run_started role (throw e) = without_sidecar role e
  run_started role (ok u) = finally (run_role role) (do stop S.machine; clear_if_worker role)

  -- `main` from the choice of a role on.
  unfoldable pub run_picked : Text → Role → Text → Call Running (Unit {0})
  unfolding run_started start clear_cache
  run_picked sidecar role key = do
    call S.ensure_user_dir
    clear_if_worker role
    call S.ensure_log_dir
    λ s. let (r, t) = start S.machine (S.config role sidecar key) s in run_started role r t

  abbrev after_pick : Text → Option (Role × Text) → Call Running (Unit {0})
  after_pick sidecar none = pure tt
  after_pick sidecar (some (role, key)) = run_picked sidecar role key

  abbrev after_resolve : Option Text → Call Running (Unit {0})
  after_resolve none =
      call (
        S.show_message (text "No sidecar that runs on this computer was found next to the script."))
  after_resolve (some sidecar) =
      λ s. let (p, v) = S.pick sidecar s.world in after_pick sidecar p (record s { world = v })

  -- main
  unfoldable pub main : Call Running (Unit {0})
  unfolding run_picked resolve_sidecar
  main = do
    call S.check_version
    λ s.
        let (r, v) = resolve_sidecar S.shell S.platform S.here s.world in
        after_resolve r (record s { world = v })
