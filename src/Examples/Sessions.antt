-- ===== src/Examples/Sessions.antt =====
-- The daemon of pjsr/lib/SidecarBridge.js, the log of pjsr/lib/FileLogger.js and the installation of
-- pjsr/lib/WBPPShim.js, on small machines.
use distributed_wbpp.Prelude.{
  throw, ℕ, ◌≡◌, ◌↔◌, refl, Bool, true, false, Option, none, some, List, [], ◌∷◌, ◌++◌, Text, text,
  ok,
}
use distributed_wbpp.Bridge.Daemon.{
  stop, Machine, Config, server, State, key_file, launch, is_stopped, start,
}
use distributed_wbpp.Bridge.Daemon.KeyFile.{after_launch, start_lem}
use distributed_wbpp.Bridge.Daemon.Stopping.{IsKillable, stop_lem}
use distributed_wbpp.Calls.{Returns}
use distributed_wbpp.Logger.{Disk, header_text, entry_text, open_logger, line}
use distributed_wbpp.Logger as L
use distributed_wbpp.Logger.Complete.{Logs, opened, said, joined, Logs-complete}
use distributed_wbpp.Install.{Operation, native, Options, wrap_engine, or_all}
use distributed_wbpp.Install.Wraps.{run_of, orig_of}
use distributed_wbpp.Install.Active.{fresh, added, installed_operation}

-- The state tells whether the key file is there.
abbrev machine : Machine Bool
machine = record {
  Process = ℕ;
  file_exists = λ f w. w;
  write_file = λ f t w. (ok tt, true);
  remove_file = λ f w. (ok tt, false);
  task_kill = λ w. (ok tt, w);
  sleep = λ n w. w;
  start = λ f args w. (ok true, (7, w));
  is_running = λ p w. some true;
  terminate = λ p w. (ok tt, w);
  wait_finished = λ p w. (ok tt, w);
  kill = λ p w. (ok tt, w);
}

abbrev config : Config
config = record {
  binary_path = text "/pi/bin/wbpp-sidecar-linux-amd64";
  cluster_key = text "ABCDEFGHIJKLMNOP";
  key_dir = text "/home/CaeloWorks";
  role = server;
  pi_version = text "1.9.4";
  wbpp_version = text "3.1.0";
  data_dir = [];
  worker_port = text "0";
  control_port = text "48099";
  peers = [];
  log_dir = [];
  kill_stale = true;
  session = text "17";
}

abbrev idle : State machine
idle = record { daemon = none; world = false }

start_lem_example :
    (machine.file_exists (key_file config) (start machine config idle).1.world ≡ false)
    × (((start machine config idle).0 ≡ ok tt) ↔ (
        (◌≡◌ {A = Bool} true true)
        × (is_stopped machine (after_launch machine config idle) ≡ false)))
    × ((start machine config idle).1 ≡ after_launch machine config idle)
unfolding launch
start_lem_example = start_lem machine config idle true (λ f w h. refl) refl refl refl

-- A daemon that does not heed the polite request; the state tells whether it is alive.
abbrev stubborn : Machine Bool
stubborn = record machine {
  is_running = λ p w. some w;
  terminate = λ p w. (throw (text "denied"), w);
  kill = λ p w. (ok tt, false);
}

killable : IsKillable stubborn (λ p w. w)
killable = record { tells = λ p w. refl; waits = λ p w. refl; kills = λ p w. refl }

abbrev served : State stubborn
served = record { daemon = some 7; world = true }

stop_lem_example : Returns (λ _ t. (t.daemon ≡ none) × (t.world ≡ false)) (stop stubborn served)
stop_lem_example = stop_lem stubborn (λ p w. w) killable 7 served refl

-- A disk with one file.
abbrev disk : Disk (Option Text)
disk = record {
  directory_exists = λ d w. true;
  create_directory = λ d w. (ok tt, w);
  write_file = λ p t w. (ok tt, some t);
  now = λ w. record {
    year = 2026;
    month = 0;
    day = 2;
    hours = 3;
    minutes = 4;
    seconds = 5;
    milliseconds = 6;
  };
}

abbrev content : Text → Option Text → Option Text
content p w = w

abbrev header : List Text
header = text "Distributed WBPP" ∷ []

abbrev first_log : L.State disk
first_log = open_logger disk (text "/logs") (text "server") header none

first_log_ok : first_log.logger.ok ≡ true
unfolding open_logger
first_log_ok = refl

abbrev second_log : L.State disk
second_log = line disk (text "end of run") first_log

second_log_ok : second_log.logger.ok ≡ true
unfolding open_logger line
second_log_ok = refl

abbrev entries : List Text
entries = [] ++ entry_text (disk.now first_log.world) (text "end of run") ∷ []

log : Logs disk content (text "/logs") (text "server") header none entries second_log
log = said (text "end of run") opened first_log_ok

Logs-complete_example :
    (second_log.logger.buffer ≡ header_text header ++ joined entries)
    × (content second_log.logger.path second_log.world
        ≡ some (header_text header ++ joined entries))
Logs-complete_example = Logs-complete disk content (λ p t w h. refl) log second_log_ok

abbrev options : Options
options = record {
  enabled = true;
  min_workers = 1;
  server_works = true;
  operations = none;
  measurements = true;
  calib_integration = true;
}

abbrev operation : Operation
operation = record {
  name = text "Drizzle Integration";
  has_group = true;
  run = native;
  orig_run = none;
}

installed_operation_example :
    let e =
      wrap_engine options
        (record { queue = some (fresh []); has_analyzer = true; measure_wrapped = false }) in
    let op = record operation {
      run = run_of (or_all options.operations) operation;
      orig_run = orig_of operation;
    } in
    (added operation e ≡ [] ++ op ∷ []) × (added operation (wrap_engine options e) ≡ [] ++ op ∷ [])
installed_operation_example = installed_operation options [] true false operation refl
