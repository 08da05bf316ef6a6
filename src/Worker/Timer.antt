-- ===== src/Worker/Timer.antt =====
-- A tick of the client's timer in pjsr/lib/WorkerRuntime.js with a job.
use distributed_wbpp.Prelude.{
  ℕ, ◌+◌, ◌-◌, ◌≡◌, refl, ◌∙◌, ap, true, false, Option, none, some, List, Text, Outcome, ok, throw,
  arith,
}
use distributed_wbpp.Worker.{Manifest, Output, no_names, given_names}
use distributed_wbpp.Worker.Measuring.{Machine}
use distributed_wbpp.Worker.Jobs.{process_job}
use distributed_wbpp.Worker.Session.{
  Message, success, failure, Bridge, State, on_machine, on_bridge, handle_job, serve, serve_job,
  released, on_timeout, count_frames,
}

module _ {N W B : Type 0} (M : Machine N W) (D : Bridge N B) where
  -- What is to be reported of a job that ended so.
  abbrev pub message_of : Manifest N → Outcome (List Output) → Message
  message_of job (ok outputs) = success job.job_id outputs
  message_of job (throw e) = failure job.job_id e

  abbrev pub frames_of : Outcome (List Output) → ℕ
  frames_of (ok outputs) = count_frames outputs
  frames_of (throw e) = 0

  abbrev pub failures_of : Outcome (List Output) → ℕ
  failures_of (ok outputs) = 0
  failures_of (throw e) = 1

  -- The state after a job that ended so, reported by a bridge that is then `b`.
  abbrev pub served_state : State M D → Outcome (List Output) → W → B → State M D
  served_state s r w b = record {
    busy = false;
    jobs = s.jobs + (1 - failures_of r);
    frames = s.frames + frames_of r;
    errors = s.errors + failures_of r;
    world = w;
    bridge = b;
  }

  add_none : (n : ℕ) → n + 0 ≡ n
  add_none n = omega arith

  handle_lem :
      (job : Manifest N) (s : State M D) (r : Outcome (List Output)) (w : W) (b : B)
      → process_job M job s.world ≡ (r, w)
      → D.report_result (message_of job r) s.bridge ≡ (ok tt, b)
      → handle_job M D job s ≡ (ok tt, record (served_state s r w b) { busy = s.busy })
  unfolding handle_job on_machine on_bridge
  handle_lem job s (ok outputs) w b e k = rw (e, k) (rw (add_none s.errors) refl)
  handle_lem job s (throw msg) w b e k = rw (e, k) (rw (add_none s.jobs, add_none s.frames) refl)

  abbrev names_or_throw : Option (List Text) → Outcome (List Text)
  names_or_throw o = elim o [ none ↦ throw no_names | some names ↦ ok names ]

  given_names_lem : (job : Manifest N) → given_names job ≡ names_or_throw job.input_names
  unfolding given_names
  given_names_lem job = refl

  -- How the tick ends, by the job's list of input names: with the job served, or with an error.
  abbrev pub tick_end : Option (List Text) → State M D → State M D → Outcome (Unit {0}) × State M D
  tick_end (some names) served left = (ok tt, served)
  tick_end none served left = (throw no_names, left)

  -- A tick that pulls a job with its list of input names runs it and reports it once, as a success with its
  -- outputs if processJob returned and as a failure with the error's message if it threw; the counters
  -- follow, and the window is ready for the next tick. The pull and that report do not throw. A job without
  -- the list is neither run nor reported nor counted: the error leaves the tick, and the window is ready
  -- for the next one.
  pub on_timeout_job :
      (job : Manifest N) (s : State M D) (b c : B)
      → s.busy ≡ false
      → D.pull_work s.bridge ≡ (ok (some job), b)
      → D.report_result (message_of job (process_job M job s.world).0) b ≡ (ok tt, c)
      → on_timeout M D s
        ≡ tick_end job.input_names
            (served_state s (process_job M job s.world).0 (process_job M job s.world).1 c)
            (record s { busy = false; bridge = b })
  unfolding on_timeout serve serve_job on_bridge
  on_timeout_job job s b c free pulled reported = go job.input_names refl
    where
      go :
          (o : Option (List Text))
          → job.input_names ≡ o
          → on_timeout M D s
            ≡ tick_end o
                (served_state s (process_job M job s.world).0 (process_job M job s.world).1 c)
                (record s { busy = false; bridge = b })
      go none e = rw (free, pulled, given_names_lem job ∙ ap names_or_throw e) refl
      go (some names) e =
          rw (free, pulled, given_names_lem job ∙ ap names_or_throw e)
            (ap (λ r. released M D r)
              (handle_lem job (record s { busy = true; bridge = b }) (process_job M job s.world).0
                (process_job M job s.world).1 c refl reported))
