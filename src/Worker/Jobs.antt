-- ===== src/Worker/Jobs.antt =====
-- processJob, integrateFrames and drizzleIntegrate of pjsr/lib/WorkerRuntime.js. `W` is the state of
-- PixInsight and of the worker's files.
use distributed_wbpp.Prelude.{
  Bool, false, ◌||◌, Option, none, some, List, [], ◌∷◌, ◌++◌, Text, text, ok, throw, same_text,
  if◌then◌else◌,
}
use distributed_wbpp.Calls.{Call, pure, raise, ◌>>=◌, ◌>>◌, attempt}
use distributed_wbpp.Serializer.{
  Rebuilt, Value, scalar, sized, Elems, nil, cons, bool, Instance, set_field,
}
use distributed_wbpp.Xdrz.{local_text}
use distributed_wbpp.Worker.{
  Manifest, names_of, given_names, Output, text_value, true_value, check_job_files,
  rebuild_job_process, try_set, set_up, outputs_of,
}
use distributed_wbpp.Worker.Measuring.{Machine, here, stem_of, quietly_close, measure_frames}

module _ {N W : Type 0} (M : Machine N W) where
  open M use {platform, Window, Stamp, data_dir}

  abbrev pub is_light : Manifest N → Bool
  is_light job = same_text job.op (text "light_integration")

  -- The companions of a frame of lights: the .xdrz with its time, and the .xnml.
  abbrev if_there : Text → W → Text
  if_there f w = if M.file_exists f w then f else []

  abbrev image_row : Bool → W → Text → Value N
  image_row light w name = sized (
      cons true_value (
        cons (text_value (here M name)) (
          cons (text_value (if light then if_there (stem_of M name ++ text ".xdrz") w else [])) (
            cons (text_value (if light then if_there (stem_of M name ++ text ".xnml") w else []))
              nil))))

  unfoldable pub image_rows : Bool → W → List Text → Elems N
  image_rows light w [] = nil
  image_rows light w (n ∷ ns) = cons (image_row light w n) (image_rows light w ns)

  -- The drizzle files that are there before, with their times.
  unfoldable pub drizzle_files : W → List Text → List (Text × Stamp)
  drizzle_files w [] = []
  drizzle_files w (n ∷ ns) =
      let rest = drizzle_files w ns in
      let dz = stem_of M n ++ text ".xdrz" in
      if M.file_exists dz w then (dz, M.modified dz w) ∷ rest else rest

  -- Those that the integration touched.
  unfoldable pub updated_files : W → List (Text × Stamp) → List Output
  updated_files w [] = []
  updated_files w ((dz, before) ∷ rest) =
      let others = updated_files w rest in
      if M.same_stamp (M.modified dz w) before
      then others
      else record { input = text "__xdrz__"; output = M.base_of dz } ∷ others

  abbrev with_id : Text → Option Window → List (Window × Text) → List (Window × Text)
  with_id id none rest = rest
  with_id id (some w) rest = (w, id) ∷ rest

  -- What an integration leaves on disk, given its main window, and what it reports.
  unfoldable pub save_integration :
      Manifest N
      → List (Text × Stamp)
      → Window
      → Option Window
      → Option Window
      → Call W (List Output)
  unfolding updated_files
  save_integration job before win low high =
      let name = text "integration-" ++ (job.job_id ++ text ".xisf") in
      let first : Output = record { input = text "__integration__"; output = name } in
      if is_light job
      then (do
        M.write_image (here M name) (
            (win, text "integration")
            ∷ with_id (text "rejection_low") low (with_id (text "rejection_high") high []))
        λ w. (ok (first ∷ updated_files w before), w))
      else (do M.save_as win (here M name); pure (first ∷ []))

  abbrev execute_or : Text → Instance N → Call W (Unit {0})
  execute_or message p = do done ← M.execute p; if done then pure tt else raise message

  unfoldable pub finish_integration : Manifest N → List (Text × Stamp) → Call W (List Output)
  unfolding save_integration
  finish_integration job before w = elim (M.main w) [
    | none ↦ raise (text "no integration window") w
    | some win ↦
        (do
          outputs ← save_integration job before win (M.low w) (M.high w)
          M.close win
          quietly_close M (M.low w)
          quietly_close M (M.high w)
          pure outputs)
          w
  ]

  -- The rest of integrateFrames, from the loop over the input names on.
  unfoldable pub integrate_names : Manifest N → Rebuilt N → List Text → Call W (List Output)
  unfolding try_set set_field image_rows drizzle_files finish_integration
  integrate_names job r names w =
      let p = set_field (text "images") (sized (image_rows (is_light job) w names)) r.process in
      let q = set_field (text "showImages") (scalar (bool false)) p in
      let ready =
        if is_light job
        then q
        else try_set platform (text "generateDrizzleData") (scalar (bool false)) q in
      (do
        execute_or (text "ImageIntegration failed") ready
        finish_integration job (if is_light job then drizzle_files w names else []))
        w

  -- integrateFrames
  unfoldable pub integrate_frames : Manifest N → Call W (List Output)
  unfolding rebuild_job_process integrate_names given_names
  integrate_frames job = do
    r ← (λ w. (rebuild_job_process platform job, w))
    names ← (λ w. (given_names job, w))
    integrate_names job r names

  abbrev local_message : Text → Text
  local_message e = text "xdrz path rewrite failed: " ++ e

  -- The rewrite of one .xdrz.
  unfoldable pub localize : Text → Call W (Unit {0})
  unfolding local_text
  localize xdrz =
      attempt (do txt ← (λ w. (M.read_file xdrz w, w)); M.write_file xdrz (local_text data_dir txt))
        (λ e. raise (local_message e))

  unfoldable pub drizzle_rows : List Text → Call W (Elems N)
  unfolding localize
  drizzle_rows [] = pure nil
  drizzle_rows (n ∷ ns) = do
    localize (here M n)
    ln ← (λ w. (ok (if_there (stem_of M n ++ text ".xnml") w), w))
    rows ← drizzle_rows ns
    pure (
        cons (sized (cons true_value (cons (text_value (here M n)) (cons (text_value ln) nil))))
          rows)

  unfoldable pub finish_drizzle : Manifest N → Call W (List Output)
  finish_drizzle job w = elim (M.main w) [
    | none ↦ raise (text "no drizzle window") w
    | some win ↦
        (let name = text "drizzle-" ++ (job.job_id ++ text ".xisf") in
            do
              M.write_image (here M name) (
                  (win, text "drizzle_integration") ∷ with_id (text "drizzle_weights") (M.low w) [])
              M.close win
              quietly_close M (M.low w)
              pure (record { input = text "__drizzle__"; output = name } ∷ []))
          w
  ]

  -- drizzleIntegrate; the second window is the weights'.
  unfoldable pub drizzle_integrate : Manifest N → Call W (List Output)
  unfolding rebuild_job_process given_names set_field drizzle_rows finish_drizzle
  drizzle_integrate job w = elim (rebuild_job_process platform job) [
    | throw e ↦ (throw e, w)
    | ok r ↦
        (do
          names ← (λ v. (given_names job, v))
          rows ← drizzle_rows names
          execute_or (text "DrizzleIntegration failed") (
              set_field (text "showImages") (scalar (bool false))
                (set_field (text "inputData") (sized rows) r.process))
          finish_drizzle job)
          w
  ]

  -- The rest of processJob: every other operation. A process that is set up has the list of input names.
  unfoldable pub run_process : Manifest N → Call W (List Output)
  unfolding set_up outputs_of
  run_process job w = elim (set_up platform data_dir job) [
    | throw e ↦ (throw e, w)
    | ok p ↦
        (do
          execute_or (text "executeGlobal() failed") p
          λ v. (ok (outputs_of platform (λ f. M.file_exists (here M f) v) job (names_of job)), v))
          w
  ]

  -- processJob
  unfoldable pub process_job : Manifest N → Call W (List Output)
  unfolding check_job_files measure_frames integrate_frames drizzle_integrate run_process
  process_job job w = elim (check_job_files job) [
    | throw e ↦ (throw e, w)
    | ok _ ↦
        (if same_text job.op (text "measurements")
            then measure_frames M job
            else if same_text job.op (text "integration") || is_light job
            then integrate_frames job
            else if same_text job.op (text "drizzle_integration")
            then drizzle_integrate job
            else run_process job)
          w
  ]
