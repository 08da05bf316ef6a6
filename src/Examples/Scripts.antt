-- ===== src/Examples/Scripts.antt =====
-- The entry script, the sidecar's daemon, the log, the installation and the clean-up of distributed-wbpp's
-- scripts, on small machines.
use distributed_wbpp.Prelude.{
  inl, none, ℕ, suc, ◌≡◌, refl, Bool, true, false, some, List, [], ◌∷◌, Text, text, ok, throw,
  arith, All, if◌then◌else◌, same_text,
}
use distributed_wbpp.Calls.{Returns, returned}
use distributed_wbpp.Transfer.{Entry, Folders, State, remove_cluster_temp_dirs}
use distributed_wbpp.Transfer.Cleanup.{files, IsRemoving, remove_cluster_temp_dirs_lem}
use distributed_wbpp.Entry.{Shell, Script, mac, sidecar_candidates, resolve_sidecar, main}
use distributed_wbpp.Entry.Resolve.{Chosen, resolve_sidecar_lem}
use distributed_wbpp.Entry.Life.{IsTidy}
use distributed_wbpp.Entry.Life.Ending.{main_lem}
use distributed_wbpp.Bridge.Daemon.{Role, server, Config, Machine}

-- Two directories and the file in each; the state tells whether the file is there, and the directory. A
-- directory that has a file is not removed.
abbrev folders : Folders (Bool × Bool)
folders = record {
  temp_dir = text "/tmp";
  now = λ w. 5;
  directory_exists = λ d w. w.1;
  create_directory = λ d w. (ok tt, (w.0, true));
  entries = λ d w. if w.0 then record { name = text "a.xisf"; is_directory = false } ∷ [] else [];
  remove_file = λ f w. (ok tt, (false, w.1));
  remove_directory = λ d w. if w.0 then (throw (text "not empty"), w) else (ok tt, (false, false));
}

file_there :
    (w : Bool) (e : Entry) (es : List Entry)
    → files (if w then record { name = text "a.xisf"; is_directory = false } ∷ [] else []) ≡ e ∷ es
    → [] ≡ es
file_there true e es h = cc
file_there false e es h = absurd (ground arith)

empty_removed :
    (dir : Text) (w : Bool × Bool)
    → files (folders.entries dir w) ≡ []
    → Returns
        (λ _ v. (v.1 ≡ false) × ((d : Text) → w.1 ≡ false → v.1 ≡ false))
        (folders.remove_directory dir w)
empty_removed dir (true, here) h = absurd (ground arith)
empty_removed dir (false, here) h = returned (refl, λ d gone. refl)

removing : IsRemoving folders
removing = record {
  file = λ dir e es w h. returned (file_there w.0 e es h, λ d gone. gone);
  directory = λ dir w h. empty_removed dir w h;
}

abbrev two_dirs : State folders
two_dirs = record {
  dirs = text "/tmp/wbpp-measure-5" ∷ text "/tmp/wbpp-integ-1-5" ∷ [];
  world = (true, true);
}

remove_cluster_temp_dirs_lem_example :
    Returns
      (λ _ t. (t.dirs ≡ []) × All (λ d. folders.directory_exists d t.world ≡ false) two_dirs.dirs)
      (remove_cluster_temp_dirs folders two_dirs)
remove_cluster_temp_dirs_lem_example = remove_cluster_temp_dirs_lem folders removing two_dirs

-- A computer with all builds, of which the last one runs.
abbrev shell : Shell ℕ
shell = record {
  Process = Text;
  file_exists = λ f w. true;
  directory_exists = λ d w. true;
  start = λ f args w. (ok f, suc w);
  wait_started = λ p w. (ok true, w);
  wait_finished = λ p w. (ok tt, w);
  exit_code = λ p w. if same_text p (text "/pi/wbpp-sidecar-darwin-amd64") then 0 else 1;
  entries = λ d w. [];
  remove_file = λ f w. (ok tt, w);
}

resolve_sidecar_lem_example :
    Chosen shell mac 0
      (sidecar_candidates mac (text "/pi"))
      (resolve_sidecar shell mac (text "/pi") 0).0
resolve_sidecar_lem_example = resolve_sidecar_lem shell mac (text "/pi") 0

-- The sidecar's daemon, which does not heed the request to end; the state tells whether it runs.
abbrev machine : Machine Bool
machine = record {
  Process = Unit {0};
  file_exists = λ f w. true;
  write_file = λ f t w. (ok tt, w);
  remove_file = λ f w. (ok tt, w);
  task_kill = λ w. (ok tt, w);
  sleep = λ n w. w;
  start = λ f args w. (ok true, (tt, true));
  is_running = λ p w. some w;
  terminate = λ p w. (throw (text "no answer"), w);
  wait_finished = λ p w. (ok tt, w);
  kill = λ p w. (ok tt, false);
}

abbrev quiet_shell : Shell Bool
quiet_shell = record {
  Process = Text;
  file_exists = λ f w. true;
  directory_exists = λ d w. true;
  start = λ f args w. (ok f, w);
  wait_started = λ p w. (ok true, w);
  wait_finished = λ p w. (ok tt, w);
  exit_code = λ p w. 0;
  entries = λ d w. [];
  remove_file = λ f w. (ok tt, w);
}

abbrev config : Role → Text → Text → Config
config role sidecar key = record {
  binary_path = sidecar;
  cluster_key = key;
  key_dir = text "/user";
  role = role;
  pi_version = text "1.9.4";
  wbpp_version = text "3.1.0";
  data_dir = [];
  worker_port = text "9000";
  control_port = text "9001";
  peers = [];
  log_dir = text "/log";
  kill_stale = true;
  session = text "7";
}

-- A session of a server in which WBPP throws.
abbrev script : Script Bool
script = record {
  shell = quiet_shell;
  machine = machine;
  platform = mac;
  here = text "/pi";
  cache_dir = text "/cache";
  config = config;
  check_version = λ w. (ok tt, w);
  pick = λ s w. (some (server, text "ABCDEFGHIJKLMNOP"), w);
  ensure_user_dir = λ w. (ok tt, w);
  ensure_log_dir = λ w. (ok tt, w);
  ensure_data_dir = λ w. (ok tt, w);
  show_message = λ t w. (ok tt, w);
  install = λ w. (ok tt, w);
  run_native = λ w. (throw (text "aborted"), w);
  recap = λ w. (ok tt, w);
  remove_temp_dirs = λ w. (ok tt, w);
  work = λ w. (ok tt, w);
}

abbrev alive : Unit {0} → Bool → Bool
alive p w = w

tidy : IsTidy script alive
tidy = record {
  killable = record { tells = λ p w. refl; waits = λ p w. refl; kills = λ p w. refl };
  starts = λ f args w q h. inl refl;
  unstarted = λ f args w h. absurd cc;
  at_write = λ f t q w h. h;
  at_remove = λ f q w h. h;
  at_task_kill = λ q w h. h;
  at_sleep = λ q w h. h;
  at_wake = λ q w h. h;
  at_terminate = λ p q w h. h;
  at_wait = λ p q w h. h;
  at_kill = λ p q w h. refl;
  at_shell = λ f args q w h. h;
  at_started = λ p q w h. h;
  at_finished = λ p q w h. h;
  at_clear = λ f q w h. h;
  at_version = λ q w h. h;
  at_pick = λ s q w h. h;
  at_user_dir = λ q w h. h;
  at_log_dir = λ q w h. h;
  at_data_dir = λ q w h. h;
  at_message = λ t q w h. h;
  at_install = λ q w h. h;
  at_native = λ q w h. h;
  at_recap = λ q w h. h;
  at_temp_dirs = λ q w h. h;
  at_work = λ q w h. h;
}

main_lem_example : (main script (record { daemon = none; world = false })).1.world ≡ false
main_lem_example = main_lem script alive tidy false tt refl
