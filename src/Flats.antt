-- ===== src/Flats.antt =====
-- The flat and the drizzle batches of pjsr/lib/WBPPShim.js: distributeFlatBatch runs the flat calibrations
-- first, and distributeDrizzleBatch makes the drizzle files' paths canonical first (__normalizeXdrzPaths).
pub mod Complete
pub mod Drizzling
use distributed_wbpp.Prelude.{
  ℕ, suc, ◌+◌, Bool, true, false, not, ◌&&◌, ◌||◌, Option, none, some, List, [], ◌∷◌, Text, Outcome,
  ok, throw, length, leb, ltb, if◌then◌else◌, ◌==◌, is_empty,
}
use distributed_wbpp.Calls.{Call, pure, ◌>>=◌, ◌>>◌, attempt}
use distributed_wbpp.Queue.{Frame}
use distributed_wbpp.Dispatch.{
  Hooks, State, is_marked, dispatch_batch, assigned_batch, distribute_batch, lift,
}

module _ {Op Cal W : Type 0} (H : Hooks Op W) (run_cal : Cal → W → Outcome H.Status × W) where
  -- The batch of the flat integrations, and `__clusterStatus` of each flat calibration that is
  -- `__clusterDone`.
  pub record Flats : Type 0 where
    pub batch : State H
    pub cals : ℕ → Option H.Status

  unfoldable pub on_batch : {A : Type 0} → Call (State H) A → Call Flats A
  on_batch m s = let (a, b) = m s.batch in (a, record s { batch = b })

  unfoldable pub mark_cal : ℕ → H.Status → Call Flats (Unit {0})
  mark_cal i st s = (ok tt, record s { cals = λ j. if i == j then some st else s.cals j })

  -- The wrapped run of a calibration that is not done; what it throws is not caught here.
  unfoldable pub run_one_cal : ℕ → Cal → Call Flats (Unit {0})
  unfolding on_batch mark_cal
  run_one_cal i c s =
      if is_marked H (s.cals i)
      then (ok tt, s)
      else (do st ← on_batch (lift H (run_cal c)); mark_cal i st) s

  unfoldable pub run_cals : ℕ → List Cal → Call Flats (Unit {0})
  unfolding run_one_cal
  run_cals i [] = pure tt
  run_cals i (c ∷ cs) = do run_one_cal i c; run_cals (suc i) cs

  -- distributeFlatBatch; `first` is the first flat integration.
  unfoldable pub distribute_flat_batch : List Op → List Cal → ℕ → Op → Call Flats (Option H.Status)
  unfolding run_cals on_batch dispatch_batch assigned_batch
  distribute_flat_batch ints cals n_workers first s =
      if leb (length ints) 1 || ltb n_workers 1
      then (do st ← on_batch (lift H (H.run_native first)); pure (some st)) s
      else (do
        run_cals 0 cals
        counts ← on_batch (dispatch_batch H (assigned_batch H ints n_workers))
        λ t. (ok (t.batch.marks 0), t))
          s

  -- The wrapped `operation.run` of a flat integration in wrapCalibIntegration.
  unfoldable pub wrapped_flat_run : List Op → List Cal → ℕ → Op → Call Flats (Option H.Status)
  unfolding distribute_flat_batch
  wrapped_flat_run ints cals n_workers first s = elim (s.batch.marks 0) [
    | some st ↦ (ok (some st), s)
    | none ↦
        attempt (distribute_flat_batch ints cals n_workers first)
          (λ e. do st ← on_batch (lift H (H.run_native first)); pure (some st)) s
  ]

-- The drizzle files of a group: `__xdrzNormalized`, the active frames, and `__canonicalizeXdrz`, which
-- Distribute.antt has.
pub record Drizzles (Op W : Type 0) : Type 0 where
  pub is_normalized : Op → W → Bool
  pub set_normalized : Op → W → W
  pub active_frames : Op → List Frame
  pub file_exists : Text → W → Bool
  pub canonicalize : Text → W → W

module _ {Op W : Type 0} (D : Drizzles Op W) where
  abbrev normalize_file : Option Text → W → W
  normalize_file none w = w
  normalize_file (some dz) w =
      if not (is_empty dz) && D.file_exists dz w then D.canonicalize dz w else w

  unfoldable pub normalize_frames : List Frame → W → W
  normalize_frames [] w = w
  normalize_frames (f ∷ fs) w = normalize_frames fs (normalize_file f.drizzle_file w)

  -- __normalizeXdrzPaths
  unfoldable pub normalize_xdrz_paths : Op → W → W
  unfolding normalize_frames
  normalize_xdrz_paths op w =
      if D.is_normalized op w
      then w
      else normalize_frames (D.active_frames op) (D.set_normalized op w)

  unfoldable pub normalize_batch : List Op → W → W
  unfolding normalize_xdrz_paths
  normalize_batch [] w = w
  normalize_batch (op ∷ ops) w = normalize_batch ops (normalize_xdrz_paths op w)

  -- distributeDrizzleBatch
  unfoldable pub distribute_drizzle_batch :
      (H : Hooks Op W) → List Op → ℕ → Op → Call (State H) (Option H.Status)
  unfolding normalize_batch distribute_batch
  distribute_drizzle_batch H batch n_workers first s =
      distribute_batch H batch n_workers first (record s { world = normalize_batch batch s.world })

  -- The wrapped `operation.run` of a drizzle integration in wrapDrizzleIntegration.
  unfoldable pub wrapped_drizzle_run :
      (H : Hooks Op W) → List Op → ℕ → Op → Call (State H) (Option H.Status)
  unfolding distribute_drizzle_batch lift
  wrapped_drizzle_run H batch n_workers first s = elim (s.marks 0) [
    | some st ↦ (ok (some st), s)
    | none ↦
        attempt (distribute_drizzle_batch H batch n_workers first)
          (λ e. do st ← lift H (H.run_native first); pure (some st)) s
  ]
