-- ===== src/Examples/Workers.antt =====
-- pjsr/lib/WorkerRuntime.js and pjsr/lib/SidecarBridge.js, at one registration job, and the rewriting of one .xdrz.
use distributed_wbpp.Prelude.{
  ℕ, ◌+◌, ◌≡◌, ◌≢◌, refl, ◌↔◌, Bool, true, false, none, some, List, [], ◌∷◌, Text, text, ok, arith,
  All, has_text, same_text, ◌==◌,
}
use distributed_wbpp.Serializer.{
  num, scalar, sized, Instance, Rebuilt, process_has_parameter, deserialize_process, set_field,
  assign_params, check_param,
}
use distributed_wbpp.Serializer.Listing.{
  parameter_names, is_space, is_newline, is_name_start, is_name_unit,
}
use distributed_wbpp.Xdrz.{canonical_text}
use distributed_wbpp.Xdrz.Canonical.{lacks-All, canonical_text_again}
use distributed_wbpp.Worker.{
  Manifest, names_of, Platform, op_process, check_job_files, set_up, set_output_names, target_rows,
}
use distributed_wbpp.Worker.Names.{IsPlain, reference_names, check_job_files_iff}
use distributed_wbpp.Worker.SetUp.{Untouched}
use distributed_wbpp.Worker.Safe.{rewritten, set_up_safe}
use distributed_wbpp.Worker.Measuring.{Machine}
use distributed_wbpp.Worker.Jobs.{process_job}
use distributed_wbpp.Worker.Session.{Message, Bridge, State, on_timeout}
use distributed_wbpp.Worker.Timer.{message_of, tick_end, served_state, on_timeout_job}
use distributed_wbpp.Bridge.{System}
use distributed_wbpp.Bridge.Polling.{Agent, unfinished, workers, workers_ends}
use distributed_wbpp.Bridge.Names.{Given, begun, named, Distinct, Given-Distinct}
use distributed_wbpp.Bridge.Pulling.{Setting, Session, temp_name, tmp, decimal}
use distributed_wbpp.Examples.Processes.{create, to_source, wanted, scale, star, targets}

abbrev job : Manifest ℕ
job = record {
  job_id = text "registration-w0";
  op = text "registration";
  input_names = some (text "a.xisf" ∷ text "b.xisf" ∷ []);
  reference_name = [];
  file_ref_fields = [];
  process = some wanted;
  output_prefix = some [];
  output_postfix = some (text "_r");
  output_ext = some (text ".xisf");
  dir_field = [];
  targets_field = text "targets";
  path_index = 2;
  drizzle = true;
}

check_job_files_iff_example : (check_job_files job ≡ ok tt) ↔ (
    All IsPlain (text "a.xisf" ∷ text "b.xisf" ∷ [])
    × All IsPlain (reference_names [])
    × All IsPlain [])
check_job_files_iff_example = check_job_files_iff job

abbrev platform : Platform ℕ
platform = record {
  create = create;
  to_source = to_source;
  accepts = λ id f. true;
  name_of = λ f. f;
}

abbrev polled : Agent ℕ ℕ
polled = record {
  ask = λ w. (ok (some (record { workers = 7 ∷ []; incompatible = [] })), w + 20);
  now = λ w. w;
  sleep = λ n w. w + n;
}

workers_ends_example : (workers polled 12000 3000 5).0 ≢ unfinished
workers_ends_example = workers_ends polled 12000 3000 (λ n w. omega arith) (λ w. omega arith) 5

-- A sidecar that leaves its response when it has finished.
abbrev puller : System Bool
puller = record {
  Process = ℕ;
  file_exists = λ f w. w;
  read_file = λ f w. ok (text "{}");
  write_file = λ f t w. (ok tt, w);
  remove_file = λ f w. (ok tt, false);
  start = λ args w. (true, (0, w));
  finish = λ p w. true;
}

abbrev setting : Setting
setting = record { temp_dir = text "/tmp"; session = text "17"; port = text "48099" }

abbrev session : Session Bool
session = record { seq = 12; world = true }

pull_name : temp_name setting (text "pull.json") 12 ≡ text "/tmp/wbpp-17-12-pull.json"
unfolding temp_name decimal
pull_name = refl

abbrev cal : Text
cal = text "/c/a.xisf"

abbrev reg : Text
reg = text "/r/a.xisf"

abbrev xdrz : Text
xdrz = text "<x><SourceImage>D:\\w\\a.xisf</SourceImage></x>"

canonical_text_again_example :
    canonical_text cal true reg true (canonical_text cal true reg true xdrz)
    ≡ canonical_text cal true reg true xdrz
canonical_text_again_example =
    canonical_text_again cal reg (lacks-All 60 cal refl) (lacks-All 60 reg refl) true true xdrz
      (lacks-All 36 cal refl) (lacks-All 36 reg refl)

-- The process of the job, ready to run in "/w".
abbrev prepared : Instance ℕ
prepared =
    set_field targets (sized (target_rows (text "/w") 2 (names_of job)))
      (set_output_names platform job (set_field scale (scalar (num 5)) (create star)))

is_prepared : set_up platform (text "/w") job ≡ ok prepared
unfolding set_up same_text deserialize_process has_text assign_params parameter_names is_space
    is_newline is_name_start is_name_unit check_param process_has_parameter
is_prepared = refl

set_up_safe_example :
    (id : Text) × (r : Rebuilt ℕ) × (op_process (text "registration") ≡ some id)
    × (deserialize_process create to_source (some wanted) id ≡ ok r)
    × (process_has_parameter r (some targets) ≡ true)
    × (prepared.fields targets ≡ sized (target_rows (text "/w") 2 (names_of job)))
    × Untouched (rewritten platform job) r.process prepared
set_up_safe_example = set_up_safe platform (text "/w") job prepared is_prepared

-- A machine on which every execution succeeds; the state counts them.
abbrev machine : Machine ℕ ℕ
machine = record {
  platform = platform;
  Window = Text;
  Row = Text;
  Stamp = ℕ;
  data_dir = text "/w";
  execute = λ p w. (ok true, w + 1);
  measure = λ paths w. (ok (some []), w + 1);
  file_exists = λ f w. true;
  read_file = λ f w. ok [];
  write_file = λ f t w. (ok tt, w);
  main = λ w. some (text "integration");
  low = λ w. none;
  high = λ w. none;
  write_image = λ f ws w. (ok tt, w);
  save_as = λ win f w. (ok tt, w);
  close = λ win w. (ok tt, w);
  modified = λ f w. w;
  same_stamp = λ a b. a == b;
  row_text = λ r. [];
  base_of = λ f. f;
}

abbrev recorder : Bridge ℕ (List Message)
recorder = record { pull_work = λ b. (ok (some job), b); report_result = λ m b. (ok tt, m ∷ b) }

abbrev idle : State machine recorder
idle = record { busy = false; jobs = 0; frames = 0; errors = 0; world = 0; bridge = [] }

on_timeout_job_example :
    on_timeout machine recorder idle
    ≡ tick_end machine recorder job.input_names
        (served_state machine recorder idle
          (process_job machine job 0).0
          (process_job machine job 0).1
          (message_of machine recorder job (process_job machine job 0).0 ∷ []))
        (record idle { busy = false; bridge = [] })
on_timeout_job_example =
    on_timeout_job machine recorder job idle []
      (message_of machine recorder job (process_job machine job 0).0 ∷ []) refl refl refl

abbrev two_given : List Text
two_given = temp_name setting (text "result.json") 13 ∷ temp_name setting (text "pull.json") 12 ∷ []

two_given_lem :
    Given puller setting true 12 two_given
      (tmp puller setting (text "result.json") (tmp puller setting (text "pull.json") session).1).1
unfolding tmp
two_given_lem = named (text "result.json") (named (text "pull.json") begun)

Given-Distinct_example : Distinct two_given
Given-Distinct_example = Given-Distinct puller setting two_given_lem
