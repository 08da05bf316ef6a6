-- ===== src/Examples/Masters.antt =====
-- The whole jobs of pjsr/lib/WBPPShim.js and their masters, with a cluster that loses one of its jobs.
use distributed_wbpp.Prelude.{
  ◌∙◌, ap, sym, arith, inl, inr, Bool-cases, same_text, same_text_iff, ℕ, ◌+◌, ◌≡◌, ◌≢◌, refl, Bool,
  true, false, Option, none, some, List, [], ◌∷◌, ◌++◌, Text, text, Outcome, ok, throw, keep,
  if◌then◌else◌, ◌==◌,
}
use distributed_wbpp.Calls.{Returns, Ends, returned, threw}
use distributed_wbpp.Capture.{native_container}
use distributed_wbpp.Queue.{light, Frame}
use distributed_wbpp.Transfer.{Output}
use distributed_wbpp.Masters.{split_outputs, mark_stale}
use distributed_wbpp.Windows.{Engine, FrameGroup, no_outputs}
use distributed_wbpp.Masters.{copy_back}
use distributed_wbpp.Captures.{xdrz_of}
use distributed_wbpp.Masters.CopyBack.{LeavesOthers, copy_back-Keeps}
use distributed_wbpp.Masters.Drizzle.{is_missing, fail_all, mark_stale-fail_all}
use distributed_wbpp.Leases.{integration_hooks, ln_ref_hooks, drizzle_hooks}
use distributed_wbpp.Captures.{Host}
use distributed_wbpp.Leases.Finalizing.{IsRegistering}
use distributed_wbpp.Leases.Counted.{Mastered, whole_job_run_complete}
use distributed_wbpp.Dispatch.{wrapped_run}
use distributed_wbpp.Flats.{Drizzles, wrapped_flat_run, wrapped_drizzle_run}
use distributed_wbpp.Flats.Drizzling.{IsTextual}

abbrev frame : Text → Option Text → Frame
frame f dz = record { current = f; drizzle_file = dz }

abbrev group : FrameGroup
group = record {
  image_type = light;
  type_value = text "Master Light";
  binning = text "1";
  filter = text "Ha";
  exposure_time = text "300.000";
  folder_name = text "_Ha";
  active_frames =
      frame (text "a.xisf") (some (text "a.xdrz"))
      ∷ frame (text "b.xisf") (some (text "b.xdrz"))
      ∷ [];
  is_drizzle_enabled = true;
  drizzle_scale = text "2";
}

-- The state counts the masters.
abbrev engine : Engine ℕ
engine = record {
  Window = Text;
  output_directory = text "/out";
  title = text "WBPP";
  version = text "3.1.0";
  generate_rejection_maps = false;
  open_windows = λ f w. (ok (f ∷ []), w);
  keywords = λ win w. [];
  set_keywords = λ win ks w. (ok tt, w);
  sign = λ win w. (ok tt, w);
  set_property = λ win n v w. (ok tt, w);
  unique_name = λ dir name w. dir ++ (text "/" ++ name);
  write_image = λ f ws w. (ok tt, w);
  close = λ win w. (ok tt, w);
  base_of = λ f. f;
  file_exists = λ f w. true;
  remove_file = λ f w. (ok tt, w);
  copy_file = λ target source w. (ok tt, w);
  processing_failed = λ f w. (ok tt, w);
  set_master = λ g f w. (ok tt, w + 1);
  set_drizzle_master = λ g f w. (ok tt, w + 1);
  set_reference = λ g f w. (ok tt, w + 1);
}

-- The report of a job with an empty description is lost.
abbrev bring : Text → ℕ → Outcome (List Output) × ℕ
bring [] w = (throw (text "no report"), w)
bring (c ∷ cs) w = (ok (record { input = text "a"; path = text "m.xisf"; verified = true } ∷ []), w)

bring_lem : (h : Text) (w : ℕ) → Ends (λ _ v. v ≡ w) (λ v. v ≡ w) (bring h w)
bring_lem [] w = threw refl
bring_lem (c ∷ cs) w = returned refl

abbrev host : Host ℕ
host = record {
  Op = ℕ;
  Status = Bool;
  Process = ℕ;
  Source = Text;
  Handle = Text;
  done = true;
  group_of = λ op. group;
  run_native = λ op w. (ok true, w + 1);
  capture = λ n op w. (
    ok (record {
      captured = some op;
      native_error = none;
      forwarded = [];
      container = native_container;
    }),
    w,
  );
  is_integration = λ p. true;
  is_drizzle = λ p. true;
  images = λ p. some ((text "true" ∷ text "a.xisf" ∷ text "a.xdrz" ∷ []) ∷ []);
  input_data = λ p. some ((text "true" ∷ text "a.xdrz" ∷ []) ∷ []);
  serialize = λ p w. (ok (if p == 2 then [] else text "II"), w);
  make_temp_dir = λ tag w. (ok (text "/tmp/" ++ tag), w);
  send = λ j w. (ok j.process, w);
  wait = λ h w. bring h w;
  add_file = λ f w. (ok tt, w + 1);
  name_of = λ f. f;
  dir_of = λ f. text "/out";
  as_xnml = λ f. f;
}

registering : IsRegistering engine host (λ w. w)
registering = record {
  native = λ op w. returned refl;
  add_file = λ f w. returned refl;
  set_master = λ g f w. returned refl;
  set_drizzle_master = λ g f w. returned refl;
  set_reference = λ g f w. returned refl;
  processing_failed = λ f w. returned refl;
  capture = λ n op w. returned refl;
  serialize = λ p w. returned refl;
  make_temp_dir = λ t w. returned refl;
  send = λ j w. returned refl;
  wait = λ h w. bring_lem h w;
  open_windows = λ f w. returned refl;
  set_keywords = λ win ks w. returned refl;
  sign = λ win w. returned refl;
  set_property = λ win n v w. returned refl;
  write_image = λ f ws w. returned refl;
  close = λ win w. returned refl;
  remove_file = λ f w. returned refl;
  copy_file = λ f g w. returned refl;
}

abbrev batch : List ℕ
batch = 1 ∷ 2 ∷ 3 ∷ []

-- A flat calibration counts no master, and nor does the rewrite of a drizzle file.
abbrev run_cal : Text → ℕ → Outcome Bool × ℕ
run_cal c w = (ok true, w)

abbrev drizzles : Drizzles ℕ ℕ
drizzles = record {
  is_normalized = λ op w. false;
  set_normalized = λ op w. w;
  active_frames = λ op. group.active_frames;
  file_exists = λ f w. true;
  canonicalize = λ f w. w;
}

textual : IsTextual drizzles (λ w. w)
textual = record { canonicalize = λ f w. refl; set_normalized = λ op w. refl }

whole_job_run_complete_example :
    Returns
      (λ st t. Mastered engine host (λ w. w) registering 0 batch 2 st t.world)
      (wrapped_run
        (integration_hooks engine host)
        batch
        2
        1
        (record { world = 0; marks = λ i. none }))
    × Returns
        (λ st t. Mastered engine host (λ w. w) registering 0 batch 2 st t.world)
        (wrapped_run (ln_ref_hooks engine host) batch 2 1 (record { world = 0; marks = λ i. none }))
    × Returns
        (λ st t. Mastered engine host (λ w. w) registering 0 batch 2 st t.batch.world)
        (wrapped_flat_run
          (integration_hooks engine host)
          run_cal
          batch
          (text "Ha" ∷ [])
          2
          1
          (record { batch = record { world = 0; marks = λ i. none }; cals = λ i. none }))
    × Returns
        (λ st t. Mastered engine host (λ w. w) registering 0 batch 2 st t.world)
        (wrapped_drizzle_run drizzles
          (drizzle_hooks engine host)
          batch
          2
          1
          (record { world = 0; marks = λ i. none }))
whole_job_run_complete_example =
    whole_job_run_complete engine host (λ w. w) registering run_cal (λ c w. returned refl) drizzles
      textual batch (text "Ha" ∷ []) 2 1 0 (λ i. none)

abbrev outputs : List Output
outputs =
    record { input = text "a"; path = text "m.xisf"; verified = true }
    ∷ record { input = text "a"; path = text "a.xdrz"; verified = true }
    ∷ []

mark_stale-fail_all_example :
    mark_stale engine (split_outputs engine outputs no_outputs).updated group.active_frames 0
    ≡ fail_all engine (keep (is_missing engine outputs) group.active_frames) 0
mark_stale-fail_all_example = mark_stale-fail_all engine outputs group.active_frames 0

-- An engine whose state counts the copies over one drizzle file.
abbrev drizzle_file : Text
drizzle_file = text "a.xdrz"

abbrev copying : Engine ℕ
copying = record engine {
  copy_file = λ target source w. (ok tt, if same_text target drizzle_file then w + 1 else w);
}

abbrev copies_of : Text → ℕ → ℕ
copies_of f w = if same_text f drizzle_file then w else 0

copies_elsewhere :
    (f target : Text) (w : ℕ)
    → f ≢ target
    → copies_of f (if same_text target drizzle_file then w + 1 else w) ≡ copies_of f w
copies_elsewhere f target w h = elim (Bool-cases (same_text f drizzle_file)) [
  | inr e ↦ rw e refl
  | inl e ↦ elim (Bool-cases (same_text target drizzle_file)) [
    | inr k ↦ rw k refl
    | inl k ↦
        absurd
          (h ((same_text_iff f drizzle_file).0 e ∙ sym ((same_text_iff target drizzle_file).0 k)))
  ]
]

leaving : LeavesOthers copying copies_of
leaving = record {
  remove = λ f target w h. refl;
  copy = λ f target source w h. copies_elsewhere f target w h;
}

abbrev rows : List (List Text)
rows = (text "true" ∷ text "b.xisf" ∷ text "b.xdrz" ∷ []) ∷ []

abbrev first_unit : Text → ℕ
first_unit [] = 0
first_unit (c ∷ s) = c

is_elsewhere : drizzle_file ≢ text "b.xdrz"
is_elsewhere h = let e : ◌≡◌ {A = ℕ} 97 98 = ap first_unit h in absurd (omega arith)

copy_back-Keeps_example :
    copies_of drizzle_file
      (copy_back copying
        (xdrz_of (λ f. true) (λ f. f) rows [])
        ((text "a.xdrz", text "/tmp/a.xdrz") ∷ (text "b.xdrz", text "/tmp/b.xdrz") ∷ [])
        5).1
    ≡ copies_of drizzle_file 5
copy_back-Keeps_example =
    copy_back-Keeps copying copies_of leaving (λ f. true) rows
      ((text "a.xdrz", text "/tmp/a.xdrz") ∷ (text "b.xdrz", text "/tmp/b.xdrz") ∷ []) drizzle_file
      5 (is_elsewhere, tt)
