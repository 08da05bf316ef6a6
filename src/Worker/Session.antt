-- ===== src/Worker/Session.antt =====
-- The timer of the client window in pjsr/lib/WorkerRuntime.js: pull a job, run it, report it, count it. `B` is
-- the state of the sidecar and of the bridge's files, apart from `W`, that of PixInsight.
use distributed_wbpp.Prelude.{
  ℕ, suc, ◌+◌, Bool, true, false, ◌&&◌, ◌||◌, Option, none, some, List, [], ◌∷◌, Text, Outcome, ok,
  if◌then◌else◌, ◌==◌,
}
use distributed_wbpp.Calls.{Call, pure, ◌>>=◌, ◌>>◌, attempt}
use distributed_wbpp.Worker.{Manifest, given_names, Output}
use distributed_wbpp.Worker.Measuring.{Machine}
use distributed_wbpp.Worker.Jobs.{process_job}

-- `/\.xdrz$/i`
abbrev pub lower : ℕ → ℕ
lower c = if (c == 88) || ((c == 68) || ((c == 82) || (c == 90))) then c + 32 else c

unfoldable pub is_xdrz_end : Text → Bool
is_xdrz_end (a ∷ b ∷ c ∷ d ∷ e ∷ []) =
    (a == 46) && ((lower b == 120) && ((lower c == 100) && ((lower d == 114) && (lower e == 122))))
is_xdrz_end _ = false

unfoldable pub is_xdrz : Text → Bool
unfolding is_xdrz_end
is_xdrz [] = false
is_xdrz (c ∷ s) = is_xdrz_end (c ∷ s) || is_xdrz s

-- countFrames
unfoldable pub count_frames : List Output → ℕ
unfolding is_xdrz
count_frames [] = 0
count_frames (o ∷ os) = let n = count_frames os in if is_xdrz o.output then n else suc n

-- What `reportResult` is given.
pub data Message : Type 0 where
  success : Text → List Output → Message
  failure : Text → Text → Message

pub record Bridge (N B : Type 0) : Type 0 where
  pub pull_work : B → Outcome (Option (Manifest N)) × B
  pub report_result : Message → B → Outcome (Unit {0}) × B

module _ {N W B : Type 0} (M : Machine N W) (D : Bridge N B) where
  pub record State : Type 0 where
    pub busy : Bool
    pub jobs : ℕ
    pub frames : ℕ
    pub errors : ℕ
    pub world : W
    pub bridge : B

  unfoldable pub on_machine : {A : Type 0} → (W → Outcome A × W) → Call State A
  on_machine m s = let (a, w) = m s.world in (a, record s { world = w })

  unfoldable pub on_bridge : {A : Type 0} → (B → Outcome A × B) → Call State A
  on_bridge m s = let (a, b) = m s.bridge in (a, record s { bridge = b })

  -- The inner `try` and its `catch`.
  unfoldable pub handle_job : Manifest N → Call State (Unit {0})
  unfolding on_machine on_bridge count_frames
  handle_job job =
      attempt
        (do
          outputs ← on_machine (process_job M job)
          on_bridge (D.report_result (success job.job_id outputs))
          λ s. (ok tt, record s { jobs = s.jobs + 1; frames = s.frames + count_frames outputs }))
        (λ e. do
          on_bridge (D.report_result (failure job.job_id e))
          λ s. (ok tt, record s { errors = s.errors + 1 }))

  -- The tick with a job: `job.input_names.length` is read before the inner `try`.
  unfoldable pub serve_job : Manifest N → Call State (Unit {0})
  unfolding handle_job given_names
  serve_job job = do names ← (λ s. (given_names job, s)); handle_job job

  unfoldable pub serve : Call State (Unit {0})
  unfolding on_bridge serve_job
  serve = do job ← on_bridge D.pull_work; elim job [ none ↦ pure tt | some j ↦ serve_job j ]

  -- `finally { self.busy = false; }`
  abbrev pub released : Outcome (Unit {0}) × State → Outcome (Unit {0}) × State
  released (r, s) = (r, record s { busy = false })

  -- `timer.onTimeout`
  unfoldable pub on_timeout : Call State (Unit {0})
  unfolding serve
  on_timeout s = if s.busy then (ok tt, s) else released (serve (record s { busy = true }))
