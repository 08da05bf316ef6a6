-- ===== src/Worker.antt =====
-- pjsr/lib/WorkerRuntime.js: what a worker checks of a job's manifest, and how it sets up and runs the job's
-- process on its own copies of the files. `N` is the type of JavaScript's numbers.
pub mod Names
pub mod SetUp
pub mod Safe
pub mod Measuring
pub mod Jobs
pub mod Session
pub mod Timer
pub mod Counts
use distributed_wbpp.Prelude.{
  ℕ, zero, suc, ◌+◌, Bool, true, false, not, ◌&&◌, ◌||◌, Option, none, some, List, [], ◌∷◌, ◌++◌,
  map, Text, text, Outcome, ok, throw, throw_if, ◌>>=◌, ◌>>◌, same_text, has_text, is_empty,
  if◌then◌else◌, ◌==◌, leb,
}
use distributed_wbpp.Serializer.{
  Value, scalar, sized, Elems, nil, cons, Scalar, str, bool, Instance, Incoming, Rebuilt, set_field,
  deserialize_process, process_has_parameter,
}

-- `/[\/\\:\0]/`
abbrev pub is_separator : ℕ → Bool
is_separator c = (c == 47) || ((c == 92) || ((c == 58) || (c == 0)))

unfoldable pub has_separator : Text → Bool
has_separator [] = false
has_separator (c ∷ s) = is_separator c || has_separator s

-- `checkJobFileName`
unfoldable pub check_job_file_name : Text → Outcome Text
unfolding has_separator
check_job_file_name s =
    throw_if
      (is_empty s || (same_text s (text ".") || (same_text s (text "..") || has_separator s)))
      (text "rejected job: invalid file name '" ++ (s ++ text "'"))
    >> ok s

unfoldable pub check_names : List Text → Outcome (Unit {0})
unfolding check_job_file_name
check_names [] = ok tt
check_names (n ∷ ns) = do checked ← check_job_file_name n; check_names ns

-- A manifest, with `""` where a text is missing and may be, and `none` where it is no string or where the list
-- of input names is missing.
pub record Manifest (N : Type 0) : Type 0 where
  pub job_id : Text
  pub op : Text
  pub input_names : Option (List Text)
  pub reference_name : Text
  pub file_ref_fields : List (Text × Text)
  pub process : Option (Incoming N)
  pub output_prefix : Option Text
  pub output_postfix : Option Text
  pub output_ext : Option Text
  pub dir_field : Text
  pub targets_field : Text
  pub path_index : ℕ
  pub drizzle : Bool

-- `WBPP_OP_PROCESS`
unfoldable pub op_process : Text → Option Text
op_process op =
    if same_text op (text "registration")
    then some (text "StarAlignment")
    else if same_text op (text "calibration")
    then some (text "ImageCalibration")
    else if same_text op (text "localnorm")
    then some (text "LocalNormalization")
    else if same_text op (text "integration")
    then some (text "ImageIntegration")
    else if same_text op (text "light_integration")
    then some (text "ImageIntegration")
    else if same_text op (text "drizzle_integration")
    then some (text "DrizzleIntegration")
    else none

-- `prefix + File.extractName( f ) + postfix` and the extension, of one output.
pub record Output : Type 0 where
  pub input : Text
  pub output : Text

abbrev pub or_else : Option Text → Text → Text
or_else none t = t
or_else (some s) t = s

-- `s ? s : t`, where the empty text is false.
abbrev pub non_empty : Text → Text → Text
non_empty [] t = t
non_empty (c ∷ s) t = c ∷ s

abbrev pub in_dir : Text → Text → Text
in_dir data_dir name = data_dir ++ (text "/" ++ name)

-- What PixInsight provides: a default instance and its listing, as in Serializer.antt; `accepts` says
-- whether an assignment to a field that may not be there goes through.
pub record Platform (N : Type 0) : Type 0 where
  pub create : Text → Instance N
  pub to_source : Instance N → Text
  pub accepts : Text → Text → Bool
  -- `File.extractName`
  pub name_of : Text → Text

-- The error of `job.input_names.length` where the list is missing, in the engine's words.
abbrev pub no_names : Text
no_names = text "job.input_names is undefined"

module _ {N : Type 0} where
  -- `job.input_names || []`
  abbrev pub names_of : Manifest N → List Text
  names_of job = elim (job.input_names) [ none ↦ [] | some names ↦ names ]

  -- The list, where `job.input_names.length` is read.
  unfoldable pub given_names : Manifest N → Outcome (List Text)
  given_names job = elim (job.input_names) [ none ↦ throw no_names | some names ↦ ok names ]

  -- `checkJobFiles`
  unfoldable pub check_job_files : Manifest N → Outcome (Unit {0})
  unfolding check_names
  check_job_files job =
      check_names (names_of job)
      >> (check_names (if is_empty job.reference_name then [] else job.reference_name ∷ [])
          >> check_names (map (λ r. r.1) job.file_ref_fields))

  abbrev pub text_value : Text → Value N
  text_value t = scalar (str t)

  abbrev pub true_value : Value N
  true_value = scalar (bool true)

  -- The row of a target: `[ true, path ]` for path index 1, else `[ true, true, path ]`.
  unfoldable pub target_row : ℕ → Text → Value N
  target_row index path =
      if index == 1
      then sized (cons true_value (cons (text_value path) nil))
      else sized (cons true_value (cons true_value (cons (text_value path) nil)))

  unfoldable pub target_rows : Text → ℕ → List Text → Elems N
  unfolding target_row
  target_rows data_dir index [] = nil
  target_rows data_dir index (n ∷ ns) =
      cons (target_row index (in_dir data_dir n)) (target_rows data_dir index ns)

  -- The file names of the outputs.
  abbrev pub prefix_of : Manifest N → Text
  prefix_of job = or_else job.output_prefix []

  abbrev pub postfix_of : Manifest N → Text
  postfix_of job = or_else job.output_postfix (text "_r")

  abbrev pub ext_of : Manifest N → Text
  ext_of job = non_empty (or_else job.output_ext []) (text ".xisf")

  abbrev pub dir_field_of : Manifest N → Text
  dir_field_of job = non_empty job.dir_field (text "outputDirectory")

  abbrev pub targets_field_of : Manifest N → Text
  targets_field_of job = non_empty job.targets_field (text "targets")

  abbrev pub path_index_of : Manifest N → ℕ
  path_index_of job = if job.path_index == 0 then 2 else job.path_index

  -- `checkField`: the field, or an error.
  unfoldable pub check_field : Rebuilt N → Text → Outcome Text
  check_field r f =
      throw_if (not (process_has_parameter r (some f)))
        (text "rejected job: unknown parameter " ++ (r.process.id ++ (text "." ++ f)))
      >> ok f

  -- `P[ checkField( f ) ] = v`
  unfoldable pub set_checked : Rebuilt N → Text → Value N → Instance N → Outcome (Instance N)
  unfolding check_field
  set_checked r f v p = do field ← check_field r f; ok (set_field field v p)

  unfoldable pub set_refs :
      Rebuilt N → Text → List (Text × Text) → Instance N → Outcome (Instance N)
  unfolding set_checked
  set_refs r data_dir [] p = ok p
  set_refs r data_dir ((f, name) ∷ refs) p = do
    q ← set_checked r f (text_value (in_dir data_dir name)) p
    set_refs r data_dir refs q

  -- The single reference of older manifests.
  unfoldable pub set_reference : Rebuilt N → Text → Manifest N → Instance N → Outcome (Instance N)
  unfolding set_checked
  set_reference r data_dir job p =
      if not (is_empty job.reference_name)
        && not (has_text (map (λ f. f.0) job.file_ref_fields) (text "referenceImage"))
      then set_checked r (text "referenceImage") (text_value (in_dir data_dir job.reference_name)) p
        >>= set_checked r (text "referenceIsFile") true_value
      else ok p

  unfoldable pub set_directory : Rebuilt N → Text → Manifest N → Instance N → Outcome (Instance N)
  unfolding check_field
  set_directory r data_dir job p =
      if process_has_parameter r (some (dir_field_of job))
      then ok (set_field (dir_field_of job) (text_value data_dir) p)
      else if not (is_empty job.dir_field)
      then (check_field r (dir_field_of job) >>= λ f. ok p)
      else ok p

  module _ (X : Platform N) where
    -- `rebuildJobProcess`
    unfoldable pub rebuild_job_process : Manifest N → Outcome (Rebuilt N)
    unfolding op_process
    rebuild_job_process job = elim (op_process job.op) [
      | none ↦ throw (text "rejected job: unknown operation '" ++ (job.op ++ text "'"))
      | some id ↦ deserialize_process X.create X.to_source job.process id
    ]

    -- `try { P.f = v; } catch ( e ) {}`
    unfoldable pub try_set : Text → Value N → Instance N → Instance N
    try_set f v p = if X.accepts p.id f then set_field f v p else p

    unfoldable pub set_output_names : Manifest N → Instance N → Instance N
    unfolding try_set
    set_output_names job p = try_set (text "overwriteExistingFiles") true_value (
        try_set (text "outputExtension") (text_value (ext_of job)) (
          try_set (text "outputPostfix") (text_value (postfix_of job))
            (try_set (text "outputPrefix") (text_value (prefix_of job)) p)))

    -- The process of a job that is not measured or integrated, set up to run.
    unfoldable pub set_up : Text → Manifest N → Outcome (Instance N)
    unfolding rebuild_job_process set_refs set_reference set_directory set_output_names check_field
        target_rows given_names
    set_up data_dir job = do
      r ← rebuild_job_process job
      p ← set_refs r data_dir job.file_ref_fields r.process
      q ← set_reference r data_dir job p
      s ← set_directory r data_dir job q
      field ← check_field r (targets_field_of job)
      names ← given_names job
      ok (
          set_field field (sized (target_rows data_dir (path_index_of job) names))
            (set_output_names job s))

    -- The outputs that are reported; `present` says which files are in the data directory.
    abbrev pub output_name : Manifest N → Text → Text → Text
    output_name job input ext = prefix_of job ++ (X.name_of input ++ (postfix_of job ++ ext))

    unfoldable pub outputs_of : (Text → Bool) → Manifest N → List Text → List Output
    outputs_of present job [] = []
    outputs_of present job (n ∷ ns) =
        let rest = outputs_of present job ns in
        let drz = output_name job n (text ".xdrz") in
        record { input = n; output = output_name job n (ext_of job) }
        ∷ (if job.drizzle && present drz then record { input = n; output = drz } ∷ rest else rest)
