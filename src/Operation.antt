-- ===== src/Operation.antt =====
-- What captureAndDistribute of pjsr/lib/WBPPShim.js reads and asks: the descriptor and the group of an
-- operation, the names of the outputs, the marks of the frames with their status, and WBPP, PixInsight
-- and the sidecar as a record of calls.

use distributed_wbpp.Prelude.{
  ℕ, Bool, true, false, not, ◌&&◌, Option, none, some, List, [], ◌∷◌, Text, Outcome, length, keep,
  leb, ltb, if◌then◌else◌,
}
use distributed_wbpp.Queue.{ImageType}
use distributed_wbpp.Split.{Number}

pub data Status : Type 0 where
  done failed : Status

-- What was done to a frame: `processingSucceeded` or `addLocalNormalizationFile` with the output, then
-- maybe `addDrizzleFile`, or `processingFailed`.
pub data Mark : Type 0 where
  succeeded : Text → Option Text → Mark
  normalized : Text → Option Text → Mark
  failed_frame : Mark

-- The fields of a descriptor of `wbppDistOps` that this code reads, but for `proc`, which the capture
-- below tells, and those that go to the cluster unread.
pub record Descriptor : Type 0 where
  pub label : Text
  pub out_prefix : Option Text
  pub out_postfix : Option Text
  pub out_ext : Option Text
  pub drizzle : Bool
  pub is_local_norm : Bool

-- `operation.group`: its image type where it has one, the `current` files of its active frames, and
-- whether fast integration is on.
pub record Group : Type 0 where
  pub image_type : Option ImageType
  pub frames : List Text
  pub fast_integration : Bool

-- The end of a capture: a native error, no process, a process of another class, or the one that the
-- descriptor names.
pub data Seized (P : Type 0) : Type 0 where
  native_error : Text → Seized P
  nothing : Seized P
  unexpected : Seized P
  process : P → Seized P

-- The output directory, and the names of the outputs in it.
pub record Naming : Type 0 where
  pub out_dir : Text
  pub prefix : Text
  pub postfix : Text
  pub ext : Text

pub record Report (N : Type 0) : Type 0 where
  pub collected : ℕ
  pub elapsed_ms : N

-- What is sent to the cluster, but for the descriptor's own fields.
pub record Job (Source : Type 0) : Type 0 where
  pub inputs : List Text
  pub shared_files : List Text
  pub file_ref_fields : List (Text × Text)
  pub process : Source
  pub names : Naming

-- `bridge.__serverWorks` is not false, and `bridge.__nWorkers`.
pub record Cluster : Type 0 where
  pub server_works : Bool
  pub n_workers : ℕ

-- WBPP, PixInsight and the sidecar, as far as this code asks them.
pub record Surroundings (J : Number) (W : Type 0) : Type 1 where
  pub Process : Type 0
  pub Handle : Type 0
  -- `originalRun.call( operation, env, ri )`
  pub run_native : W → Outcome Status × W
  -- `__captureViaContainer`, with the group's file items put back, and `instanceof descriptor.proc`
  pub capture : W → Outcome (Seized Process) × W
  -- The output directory and names that the process has, and its file reference fields with their values.
  pub naming : Process → Naming
  pub refs : Process → List (Text × Text)
  -- `serializeProcess`, which Serializer.antt is about
  pub Source : Type 0
  pub serialize : Process → W → Outcome Source × W
  -- `P.executeGlobal()` with these targets
  pub execute : Process → List Text → W → Outcome (Unit {0}) × W
  -- `bridge.distributeAsync` and `bridge.distributeWait`
  pub send : Job Source → W → Outcome Handle × W
  pub wait : Handle → W → Outcome (Report J.N) × W
  -- `ElapsedTime.value`, in seconds
  pub elapsed : W → J.N
  pub file_exists : Text → W → Bool
  pub read_file : Text → W → Outcome Text
  pub write_file : Text → Text → W → Outcome (Unit {0}) × W
  -- `File.extractName`, the drive with the directory, and `File.changeExtension( f, ".xdrz" )`
  pub name_of : Text → Text
  pub dir_of : Text → Text
  pub as_xdrz : Text → Text

abbrev pub is_light : Option ImageType → Bool
is_light none = true
is_light (some ImageType.light) = true
is_light (some _) = false

abbrev pub no_frames : List Text → Bool
no_frames [] = true
no_frames (_ ∷ _) = false

abbrev given : Option Text → Text → Text
given none t = t
given (some s) t = s

abbrev given_dir : (Text → Text) → Text → List Text → Text
given_dir dir_of [] [] = []
given_dir dir_of [] (f ∷ fs) = dir_of f
given_dir dir_of (c ∷ dir) fs = c ∷ dir

-- The descriptor's names where it has them, else those of the process; the directory of the first frame
-- where the process has none.
unfoldable pub named : (Text → Text) → Descriptor → List Text → Naming → Naming
named dir_of d inputs n = record {
  out_dir = given_dir dir_of n.out_dir inputs;
  prefix = given d.out_prefix n.prefix;
  postfix = given d.out_postfix n.postfix;
  ext = given d.out_ext n.ext;
}

abbrev pub success : Descriptor → Text → Option Text → Mark
success d output drz = if d.is_local_norm then normalized output drz else succeeded output drz

abbrev pub is_failed : Mark → Bool
is_failed failed_frame = true
is_failed _ = false

-- `nFail` and `nOK`
unfoldable pub count_failed : List Mark → ℕ
count_failed ms = length (keep is_failed ms)

unfoldable pub count_ok : List Mark → ℕ
count_ok ms = length (keep (λ m. not (is_failed m)) ms)

-- `( nFail > 0 && nOK == 0 ) ? FAILED : DONE`
unfoldable pub status_of : List Mark → Status
unfolding count_failed count_ok
status_of ms = if ltb 0 (count_failed ms) && leb (count_ok ms) 0 then failed else done
