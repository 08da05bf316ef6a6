-- ===== src/Bridge.antt =====
-- pjsr/lib/SidecarBridge.js: the calls of the sidecar through files. `W` is the state of the files, of the
-- processes and of the clock; a response is what `JSON.parse` makes of its file.
pub mod Polling
pub mod Files
pub mod Pulling
pub mod Names
pub mod Daemon
use distributed_wbpp.Prelude.{
  ℕ, zero, suc, ◌+◌, ◌-◌, Bool, true, false, not, ◌&&◌, ◌||◌, Option, none, some, List, [], ◌∷◌,
  ◌++◌, Text, text, Outcome, ok, throw, length, ltb, leb, if◌then◌else◌, is_empty,
}
use distributed_wbpp.Calls.{Call, pure, raise, ◌>>=◌, ◌>>◌, attempt}

-- The files and processes: `run` is an ExternalProcess that is started and waited for, with what
-- `waitForStarted` says, and `start` one that is started only.
pub record System (W : Type 0) : Type 1 where
  pub Process : Type 0
  pub file_exists : Text → W → Bool
  pub read_file : Text → W → Outcome Text
  pub write_file : Text → Text → W → Outcome (Unit {0}) × W
  pub remove_file : Text → W → Outcome (Unit {0}) × W
  pub start : List Text → W → Bool × (Process × W)
  pub finish : Process → W → W

module _ {W : Type 0} (Y : System W) where
  -- `_remove`
  unfoldable pub remove : Text → W → W
  remove path w = if Y.file_exists path w then (Y.remove_file path w).1 else w

  -- `_readJSON`; what is no JSON is null.
  unfoldable pub read_json : {J : Type 0} → (Text → Option J) → Text → W → Option J
  read_json parse path w =
      if Y.file_exists path w
      then elim (Y.read_file path w) [ ok t ↦ parse t | throw e ↦ none ]
      else none

  -- `_consumeJSON`
  unfoldable pub consume_json : {J : Type 0} → (Text → Option J) → Text → W → Option J × W
  unfolding read_json remove
  consume_json parse path w = (read_json parse path w, remove path w)

  -- `_runOneShot`
  unfoldable pub run_one_shot : List Text → Call W (Unit {0})
  run_one_shot args w =
      let (started, (p, v)) = Y.start args w in
      if started then (ok tt, Y.finish p v) else (throw (text "sidecar did not start"), v)

  pub record Handle : Type 0 where
    pub process : Y.Process
    pub job_file : Text
    pub report_file : Text

  -- distributeAsync, with the names that `_tmp` gave and the job's JSON.
  unfoldable pub distribute_async : Text → Text → Text → Text → Call W Handle
  distribute_async port job_file report_file job = do
    Y.write_file job_file job
    λ w.
        let (started, (p, v)) =
          Y.start
            (text "ctl"
              ∷ text "distribute"
              ∷ text "--control-port"
              ∷ port
              ∷ text "--in-file"
              ∷ job_file
              ∷ text "--out-file"
              ∷ report_file
              ∷ [])
            w in
        if started
        then (ok (record { process = p; job_file = job_file; report_file = report_file }), v)
        else (throw (text "ctl distribute did not start"), v)

  -- A parsed report: `error`, where there is one, and the rest.
  pub record Report (R : Type 0) : Type 0 where
    pub error : Text
    pub body : R

  abbrev judged : {R : Type 0} → Text → Option (Report R) → Outcome (Report R)
  judged file none = throw (text "distribute: no report produced (" ++ (file ++ text ")"))
  judged file (some r) = if is_empty r.error then ok r else throw (text "distribute: " ++ r.error)

  -- distributeWait
  unfoldable pub distribute_wait :
      {R : Type 0} → (Text → Option (Report R)) → Handle → Call W (Report R)
  unfolding consume_json remove
  distribute_wait parse h w =
      let (r, v) = consume_json parse h.report_file (remove h.job_file (Y.finish h.process w)) in
      (judged h.report_file r, v)
