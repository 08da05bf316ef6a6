-- ===== src/Distribute.antt =====
-- captureAndDistribute of pjsr/lib/WBPPShim.js, and the wrapped `operation.run` of wrapQueue around it: the
-- frames of a group go in two lanes, the server's and the cluster's, and what the cluster does not
-- bring is run on the server. `W` is the state of WBPP, of the files and of the sidecar; the costs that
-- the adaptive split learns are a part of this model's state.

pub mod Marks
pub mod Complete
pub mod Whole
pub mod Lost
use distributed_wbpp.Prelude.{
  ℕ, zero, suc, ◌+◌, Bool, true, false, not, ◌&&◌, ◌||◌, Option, none, some, List, [], ◌∷◌, ◌++◌,
  map, Text, text, Outcome, ok, throw, length, keep, leb, ltb, if◌then◌else◌, ◌==◌, is_empty,
  same_text,
}
use distributed_wbpp.Queue.{ImageType}
use distributed_wbpp.Split.{Number, Costs, server_count, learn_costs, slice_to, slice_from}
use distributed_wbpp.Calls.{Call, pure, raise, ◌>>=◌, ◌>>◌, attempt}
use distributed_wbpp.Xdrz.{canonical_text, server_paths}
use distributed_wbpp.Operation.{
  Cluster, Descriptor, Group, Job, Mark, Naming, Report, Seized, Status, Surroundings, count_failed,
  count_ok, done, failed, failed_frame, is_failed, is_light, named, native_error, no_frames,
  normalized, nothing, process, status_of, succeeded, success, unexpected,
}

-- `serverCount`
unfoldable pub split_point : (J : Number) → Cluster → Costs J → Text → ℕ → Option ℕ
unfolding server_count
split_point J c costs label m =
    if c.server_works
    then server_count J costs label m (if c.n_workers == 0 then 1 else c.n_workers)
    else some 0

module _ {W : Type 0} (J : Number) (S : Surroundings J W) where
  -- The costs are those of `__costServer` and the other two.
  pub record State : Type 0 where
    pub world : W
    pub costs : Costs J

  unfoldable pub lift : {A : Type 0} → (W → Outcome A × W) → Call State A
  lift m s = let (a, w) = m s.world in (a, record s { world = w })

  -- `outDir + "/" + prefix + File.extractName( f ) + postfix + ext`
  unfoldable pub output_of : Naming → Text → Text
  output_of n f = n.out_dir ++ (text "/" ++ (n.prefix ++ (S.name_of f ++ (n.postfix ++ n.ext))))

  abbrev pub is_there : Naming → W → Text → Bool
  is_there n w f = S.file_exists (output_of n f) w

  -- Nothing to do on no frames: the tests `length > 0` before a send and an execution.
  unfoldable pub execute_some : S.Process → List Text → Call State (Unit {0})
  unfolding lift
  execute_some p [] = pure tt
  execute_some p (f ∷ fs) = lift (S.execute p (f ∷ fs))

  -- The file references that are files.
  unfoldable pub present_refs : S.Process → W → List (Text × Text)
  present_refs p w = keep (λ r. not (is_empty r.1) && S.file_exists r.1 w) (S.refs p)

  unfoldable pub send_some :
      List (Text × Text) → S.Source → Naming → List Text → Call State (Option S.Handle)
  unfolding lift
  send_some refs source n [] = pure none
  send_some refs source n (f ∷ fs) = do
    h ← lift (
        S.send (record {
          inputs = f ∷ fs;
          shared_files = map (λ r. r.1) refs;
          file_ref_fields = refs;
          process = source;
          names = n;
        }))
    pure (some h)

  abbrev empty_report : Report J.N
  empty_report = record { collected = 0; elapsed_ms = J.of_nat 0 }

  -- The join: the cluster's report, or the cluster's frames on the server.
  unfoldable pub join : S.Process → List Text → Option S.Handle → Call State (Report J.N)
  unfolding lift
  join p clients none = pure empty_report
  join p clients (some h) =
      attempt (lift (S.wait h)) (λ e. do lift (S.execute p clients); pure empty_report)

  unfoldable pub missing : Naming → W → List Text → List Text
  unfolding output_of
  missing n w clients = keep (λ f. not (is_there n w f)) clients

  -- `if ( missing.length > 0 && missing.length < clientInputs.length )`: a second run of those, whose
  -- error is swallowed.
  unfoldable pub run_missing : S.Process → Naming → List Text → Call State (Unit {0})
  unfolding lift missing
  run_missing p n clients s =
      let gone = missing n s.world clients in
      if ltb 0 (length gone) && ltb (length gone) (length clients)
      then attempt (lift (S.execute p gone)) (λ e. pure tt) s
      else (ok tt, s)

  -- The two lanes and what makes up for the second, given the split.
  unfoldable pub run_lanes :
      S.Process
      → List (Text × Text)
      → S.Source
      → Text
      → Naming
      → List Text
      → List Text
      → Call State (Unit {0})
  unfolding execute_some send_some join run_missing
  run_lanes p refs source label n servers clients = do
    h ← send_some refs source n clients
    execute_some p servers
    secs ← λ s. (ok (S.elapsed s.world), s)
    report ← join p clients h
    (λ s. (
      ok tt,
      record s {
        costs =
            learn_costs J label secs (length servers) report.elapsed_ms (length clients)
              report.collected s.costs;
      },
    ))
    run_missing p n clients

  -- `if ( nt != txt ) File.writeTextFile( dz, nt );`
  unfoldable pub write_changed : Text → Text → Text → W → W
  write_changed dz txt nt w = if same_text nt txt then w else (S.write_file dz nt w).1

  -- `__canonicalizeXdrz`: what it cannot read or write it leaves.
  unfoldable pub canonicalize : Text → W → W
  unfolding canonical_text server_paths write_changed
  canonicalize dz w = elim (S.read_file dz w) [
    | throw e ↦ w
    | ok txt ↦
        let paths = server_paths (S.dir_of dz) (S.name_of dz) in
        write_changed dz txt
          (canonical_text paths.0 (S.file_exists paths.0 w) paths.1 (S.file_exists paths.1 w) txt) w
  ]

  -- The last loop, at one frame.
  unfoldable pub mark_frame : Descriptor → Naming → Text → W → Mark × W
  unfolding canonicalize output_of
  mark_frame d n f w =
      let output = output_of n f in
      let drz = S.as_xdrz output in
      if S.file_exists output w
      then if d.drizzle && S.file_exists drz w
        then (success d output (some drz), canonicalize drz w)
        else (success d output none, w)
      else (failed_frame, w)

  unfoldable pub mark_frames : Descriptor → Naming → List Text → W → List Mark × W
  unfolding mark_frame
  mark_frames d n [] w = ([], w)
  mark_frames d n (f ∷ fs) w =
      let (m, v) = mark_frame d n f w in let (ms, u) = mark_frames d n fs v in (m ∷ ms, u)

  -- What is captured is distributed: the status with the frames' marks.
  unfoldable pub distribute_captured :
      Cluster → Descriptor → List Text → S.Process → Call State (Status × List Mark)
  unfolding lift present_refs split_point run_lanes mark_frames status_of slice_to slice_from named
  distribute_captured c d inputs p s =
      let n = named S.dir_of d inputs (S.naming p) in
      let at = split_point J c s.costs d.label (length inputs) in
      (do
        source ← lift (S.serialize p)
        run_lanes p (present_refs p s.world) source d.label n (slice_to at inputs)
            (slice_from at inputs)
        λ t.
            let (marks, w) = mark_frames d n inputs t.world in
            (ok (status_of marks, marks), record t { world = w }))
        s

  -- The outcome of a run: WBPP's own, or the distributed one.
  pub data Result : Type 0 where
    native : Status → Result
    distributed : Status → List Mark → Result

  unfoldable pub run_natively : Call State Result
  unfolding lift
  run_natively = do st ← lift S.run_native; pure (native st)

  unfoldable pub after_capture :
      Cluster → Descriptor → List Text → Seized S.Process → Call State Result
  unfolding run_natively distribute_captured
  after_capture c d inputs (native_error e) = raise e
  after_capture c d inputs nothing = run_natively
  after_capture c d inputs unexpected = run_natively
  after_capture c d inputs (process p) = do
    r ← distribute_captured c d inputs p
    pure (distributed r.0 r.1)

  unfoldable pub capture_and_distribute : Cluster → Descriptor → Option Group → Call State Result
  unfolding run_natively after_capture lift
  capture_and_distribute c d none = run_natively
  capture_and_distribute c d (some g) =
      if not (is_light g.image_type) || (no_frames g.frames || g.fast_integration)
      then run_natively
      else do seized ← lift S.capture; after_capture c d g.frames seized

  -- The wrapped `operation.run`; the first argument is `__clusterStatus` where `__clusterDone` is set.
  unfoldable pub wrapped_run :
      Option Status → Cluster → Descriptor → Option Group → Call State Result
  unfolding capture_and_distribute run_natively
  wrapped_run (some st) c d g = pure (native st)
  wrapped_run none c d g = attempt (capture_and_distribute c d g) (λ e. run_natively)
