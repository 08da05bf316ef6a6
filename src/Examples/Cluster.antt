-- ===== src/Examples/Cluster.antt =====
-- The dispatchers of pjsr/lib/WBPPShim.js, with a cluster that loses a part of the work.
use distributed_wbpp.Prelude.{
  Option, arith, ℕ, zero, suc, ◌+◌, ◌<◌, ◌≡◌, ◌≢◌, ◌⊎◌, refl, Bool, true, none, some, if◌then◌else◌,
  ◌==◌, List, [], ◌∷◌, Text, text, Outcome, ok, throw, length,
}
use distributed_wbpp.Calls.{Returns, Ends, returned, threw}
use distributed_wbpp.Dispatch.{Hooks, State, dispatch_batch, wrapped_run}
use distributed_wbpp.Flats.{Flats, wrapped_flat_run}
use distributed_wbpp.Flats.Complete.{cal_share, wrapped_flat_run_complete}
use distributed_wbpp.Dispatch.Steps.{IsCounted}
use distributed_wbpp.Dispatch.Complete.{one_of, dispatch_batch_complete}
use distributed_wbpp.Dispatch.Positions.{batch_weight}
use distributed_wbpp.Dispatch.Wrapped.{is_local, share, wrapped_run_complete}

-- The state lists what was done, an operation by its frame count.
abbrev Done : Type 0
Done = List ℕ

-- The wait for the job of 0 frames fails, and the others bring an output.
abbrev bring : ℕ → Done → Outcome (List Text) × Done
bring zero w = (throw (text "no report"), w)
bring (suc n) w = (ok (text "master.xisf" ∷ []), w)

abbrev hooks : Hooks ℕ Done
hooks = record {
  Status = Bool;
  Cap = ℕ;
  Handle = ℕ;
  Output = Text;
  done = true;
  no_result = text "no result";
  frames = λ op. op;
  run_native = λ op w. (ok true, op ∷ w);
  capture = λ op w. (ok op, w);
  lease = λ i op c w. (ok op, w);
  wait = λ h w. bring h w;
  finalize = λ op c outs w. (ok tt, op ∷ w);
}

abbrev key : ℕ → ℕ
key op = op

abbrev times : ℕ → Done → ℕ
times k [] = 0
times k (op ∷ ops) = one_of key k op + times k ops

bring_lem :
    (k h : ℕ) (w : Done)
    → Ends (λ _ v. times k v ≡ times k w) (λ v. times k v ≡ times k w) (bring h w)
bring_lem k zero w = threw refl
bring_lem k (suc n) w = returned refl

counted : (k : ℕ) → IsCounted hooks (times k) (one_of key k)
counted k = record {
  native = λ op w. returned (omega arith);
  capture = λ op w. returned refl;
  lease = λ i op c w. returned refl;
  wait = λ h w. bring_lem k h w;
  finalize = λ op c outs w. returned (omega arith);
}

abbrev start : State hooks
start = record { world = []; marks = λ i. none }

abbrev batch : List (ℕ × ℕ)
batch = (30, 0) ∷ (0, 1) ∷ (20, 2) ∷ []

dispatch_batch_complete_example :
    Returns
      (λ counts t.
        (k : ℕ)
        → ((i : ℕ) → i < 3 → t.marks i ≢ none)
          × (times k t.world ≡ 0 + batch_weight (one_of key k) batch)
          × (counts.0 + counts.1 ≡ 3))
      (dispatch_batch hooks batch start)
dispatch_batch_complete_example =
    dispatch_batch_complete hooks times key counted batch start (λ i. refl)

abbrev two_jobs : List ℕ
two_jobs = 30 ∷ 0 ∷ []

wrapped_run_complete_example :
    Returns
      (λ st t. (k : ℕ) → (st ≢ none) × (times k t.world ≡ 0 + share (one_of key k) two_jobs 2 30))
      (wrapped_run hooks two_jobs 2 30 start)
wrapped_run_complete_example =
    wrapped_run_complete hooks times key counted two_jobs 2 30 start (λ i. refl)

-- Two flat calibrations, by their keys, of which the first was run before.
abbrev run_cal : ℕ → Done → Outcome Bool × Done
run_cal c w = (ok true, c ∷ w)

abbrev flat_cals : List ℕ
flat_cals = 100 ∷ 101 ∷ []

abbrev cal_marks : ℕ → Option Bool
cal_marks i = if i == 0 then some true else none

abbrev flats : Flats hooks run_cal
flats = record { batch = start; cals = cal_marks }

wrapped_flat_run_complete_example :
    Returns
      (λ st t.
        (k : ℕ)
        → (st ≢ none)
          × (times k t.batch.world
              ≡ 0
                + cal_share (one_of key k) cal_marks two_jobs flat_cals 2
                + share (one_of key k) two_jobs 2 30)
          × ((is_local two_jobs 2 ≡ true) ⊎ ((i : ℕ) → i < length flat_cals → t.cals i ≢ none)))
      (wrapped_flat_run hooks run_cal two_jobs flat_cals 2 30 flats)
wrapped_flat_run_complete_example =
    wrapped_flat_run_complete hooks run_cal times key key counted (λ k c w. returned (omega arith))
      two_jobs flat_cals 2 30 flats (λ i. refl)
