-- ===== src/Install.antt =====
-- The installation of pjsr/lib/WBPPShim.js: installShim, and what wrapQueue, wrapCalibIntegration,
-- wrapLNReference, wrapDrizzleIntegration and wrapMeasurements make of WBPP's engine. A wrapped `run` is
-- the data of its wrap: what the wrapped runs do is in Distribute.antt, Dispatch.antt and Measure.antt.
pub mod Wraps
pub mod Active
pub mod Reasons
use distributed_wbpp.Prelude.{
  ℕ, Bool, true, false, not, ◌&&◌, ◌||◌, Option, none, some, List, [], ◌∷◌, ◌++◌, Text, text,
  Outcome, ok, throw, length, ltb, if◌then◌else◌, ◌==◌, same_text, has_text,
}
use distributed_wbpp.Queue.{has_prefix}

-- Which batch a wrapped run takes over: distributeCalibBatch with its flats and lights, and the others.
pub data Batch : Type 0 where
  integrations ln_references drizzles : Batch

-- `operation.run`: WBPP's own; captureAndDistribute in the place of another; a batch in the place of
-- another; another with the note of the measurements.
pub data Run : Type 0 where
  native : Run
  captured : Run → Run
  batched : Batch → Run → Run
  noted : Run → Run

-- An operation of WBPP, as far as the wraps read and write it; `orig_run` is `__origRun`.
pub record Operation : Type 0 where
  pub name : Text
  pub has_group : Bool
  pub run : Run
  pub orig_run : Option Run

-- What `queue.addOperation` does before the one that it wraps.
pub data Wrap : Type 0 where
  distributes : List Text → Wrap
  batches : Batch → Wrap

-- The queue: its flags `__wbppClusterWrapped`, `__wbppCalibIntegWrapped`, `__wbppLNRefWrapped` and
-- `__wbppDrizzleWrapped`, the wraps of `addOperation` with the outermost first, and its operations.
pub record Queue : Type 0 where
  pub cluster_wrapped : Bool
  pub batch_wrapped : Batch → Bool
  pub wraps : List Wrap
  pub operations : List Operation

-- The names of `wbppDistOps`.
abbrev pub distributable : List Text
distributable = text "Registration" ∷ text "Calibration" ∷ text "Local Normalization" ∷ []

-- The operations that a wrap of a batch is for; WBPP has its `ImageType`.
unfoldable pub is_of : Batch → Operation → Bool
unfolding has_prefix
is_of integrations op = same_text op.name (text "Integration") && op.has_group
is_of ln_references op = same_text op.name (text "LN reference generation") && op.has_group
is_of drizzles op = has_prefix (text "Drizzle Integration") op.name && op.has_group

unfoldable pub is_distributed : List Text → Operation → Bool
is_distributed enabled op = has_text distributable op.name && has_text enabled op.name

-- What a wrap does to an operation that is added.
unfoldable pub wrap_operation : Wrap → Operation → Operation
unfolding is_of is_distributed
wrap_operation (distributes enabled) op =
    if is_distributed enabled op
    then record op { run = captured op.run }
    else if same_text op.name (text "Measurements")
    then record op { run = noted op.run }
    else op
wrap_operation (batches b) op =
    if is_of b op then record op { orig_run = some op.run; run = batched b op.run } else op

unfoldable pub wrap_all : List Wrap → Operation → Operation
unfolding wrap_operation
wrap_all [] op = op
wrap_all (w ∷ ws) op = wrap_all ws (wrap_operation w op)

-- `queue.addOperation( operation )`
unfoldable pub add_operation : Operation → Queue → Queue
unfolding wrap_all
add_operation op q = record q { operations = q.operations ++ wrap_all q.wraps op ∷ [] }

-- wrapQueue
unfoldable pub wrap_queue : List Text → Queue → Queue
wrap_queue enabled q =
    if q.cluster_wrapped
    then q
    else record q { cluster_wrapped = true; wraps = distributes enabled ∷ q.wraps }

abbrev same_batch : Batch → Batch → Bool
same_batch integrations integrations = true
same_batch ln_references ln_references = true
same_batch drizzles drizzles = true
same_batch _ _ = false

-- What the three wraps of batches share.
unfoldable pub wrap_batches : Batch → Queue → Queue
wrap_batches b q = if q.batch_wrapped b then q else record q {
  batch_wrapped = λ c. if same_batch b c then true else q.batch_wrapped c;
  wraps = batches b ∷ q.wraps;
}

-- wrapCalibIntegration
abbrev pub wrap_calib_integration : Queue → Queue
wrap_calib_integration q = wrap_batches integrations q

-- wrapLNReference
abbrev pub wrap_ln_reference : Queue → Queue
wrap_ln_reference q = wrap_batches ln_references q

-- wrapDrizzleIntegration
abbrev pub wrap_drizzle_integration : Queue → Queue
wrap_drizzle_integration q = wrap_batches drizzles q

-- The engine: its queue; its analyzer, with `__wbppMeasureWrapped` and whether `computeDescriptors` is
-- wrapped, where it has one.
pub record Engine : Type 0 where
  pub queue : Option Queue
  pub has_analyzer : Bool
  pub measure_wrapped : Bool

-- wrapMeasurements
unfoldable pub wrap_measurements : Engine → Engine
wrap_measurements e =
    if not e.measure_wrapped && e.has_analyzer then record e { measure_wrapped = true } else e

abbrev on_queue : (Queue → Queue) → Engine → Engine
on_queue f e = record e { queue = elim (e.queue) [ none ↦ none | some q ↦ some (f q) ] }

-- The options; `enabled`, `server_works`, `measurements` and `calib_integration` are false if they are
-- given as false.
pub record Options : Type 0 where
  pub enabled : Bool
  pub min_workers : ℕ
  pub server_works : Bool
  pub operations : Option (List Text)
  pub measurements : Bool
  pub calib_integration : Bool

-- What installShim sets on the bridge.
pub record Bridge : Type 0 where
  pub n_workers : ℕ
  pub worker_list : List Text
  pub server_works : Bool

pub data Status : Type 0 where
  active : ℕ → List Text → Status
  inactive : Text → Status

-- `WBPP_SHIM_COMPAT`; a version is no name that every object inherits.
abbrev pub compatible : List Text
compatible = text "3.0.1" ∷ text "3.1.0" ∷ []

abbrev pub or_all : Option (List Text) → List Text
or_all none = distributable
or_all (some names) = names

unfoldable pub wrap_if : Bool → (Engine → Engine) → Engine → Engine
wrap_if true f e = f e
wrap_if false f e = e

-- wrapQueue, wrapMeasurements and the wraps of the batches, as the options ask.
unfoldable pub wrap_engine : Options → Engine → Engine
unfolding wrap_queue wrap_measurements wrap_batches wrap_if
wrap_engine o e = wrap_if o.calib_integration (on_queue wrap_drizzle_integration) (
    wrap_if o.calib_integration (on_queue wrap_ln_reference) (
      wrap_if o.calib_integration (on_queue wrap_calib_integration)
        (wrap_if o.measurements wrap_measurements (on_queue (wrap_queue (or_all o.operations)) e))))

-- `try { workers = bridge.workers(); } catch ( e ) {}`
abbrev pub found_workers : Outcome (List Text) → List Text
found_workers (ok ws) = ws
found_workers (throw e) = []

abbrev pub at_least_one : ℕ → ℕ
at_least_one n = if n == 0 then 1 else n

-- installShim, with WBPP's version and what `bridge.workers()` gives.
unfoldable pub install_shim :
    Options → Text → Outcome (List Text) → Bridge → Engine → Status × Bridge × Engine
unfolding wrap_engine
install_shim o version workers b e =
    if not o.enabled
    then (inactive (text "disabled by user"), b, e)
    else if not (has_text compatible version)
    then (inactive (text "unsupported WBPP version " ++ version), b, e)
    else let ws = found_workers workers in
      if ltb (length ws) (at_least_one o.min_workers)
      then (inactive (text "no workers discovered"), b, e)
      else (
        active (length ws) (or_all o.operations),
        record { n_workers = length ws; worker_list = ws; server_works = o.server_works },
        wrap_engine o e,
      )
