-- ===== src/Leases.antt =====
-- The whole jobs of pjsr/lib/WBPPShim.js: the jobs that are leased for what Captures.antt keeps, and what dispatchIntegrationBatch, dispatchLNRefBatch and dispatchDrizzleBatch put into their
-- common skeleton, which is in Dispatch.antt.
pub mod Quiet
pub mod Finalizing
pub mod Hooked
pub mod Counted
use distributed_wbpp.Prelude.{
  ℕ, Bool, true, false, not, ◌&&◌, Option, none, some, List, [], ◌∷◌, ◌++◌, map, Text, text,
  Outcome, ok, throw, if◌then◌else◌, is_empty, zero, suc, length,
}
use distributed_wbpp.Captures.{
  WholeJob, Host, cell_or_empty, cell, is_there, add_if, companions_of, xdrz_of, ln_files, Drizzled,
  drizzled_of, of_kind, rows_or_throw, rows_or_none, kept, capture_ii, capture_ln_ref_ii,
  capture_drizzle,
}
use distributed_wbpp.Calls.{Call, pure, raise, ◌>>=◌, ◌>>◌, attempt}
use distributed_wbpp.Capture.{Captured}
use distributed_wbpp.Queue.{ImageType, is_light}
use distributed_wbpp.Transfer.{Output, verified_outputs}
use distributed_wbpp.Bridge.Pulling.{decimal}
use distributed_wbpp.Xdrz.{server_paths}
use distributed_wbpp.Dispatch.{Hooks, State, dispatch_batch}
use distributed_wbpp.Masters.{
  finalize_master, finalize_light_master, finalize_ln_reference, finalize_drizzle_master,
}
use distributed_wbpp.Windows.{Engine, FrameGroup, Cap, put_entry}

-- WBPP's operations, the processes that they configure, and the sidecar. A table is read with `String` of
-- each cell; none is a property that is not there.
module _ {W : Type 0} (E : Engine W) (P : Host W) where
  open P use {Op, Process, Source, Handle}

  -- `__makeTempDir( tag + i )` and `bridge.distributeAsync`
  unfoldable pub lease_job : Text → Text → List Text → ℕ → Cap Source → Call W Handle
  lease_job tag op shared i cap = do
    dir ← P.make_temp_dir (tag ++ decimal i)
    P.send (record {
      inputs = cap.frames;
      op = op;
      process = cap.source;
      shared_files = shared;
      out_dir = dir;
    })

  abbrev pub is_light_op : Op → Bool
  is_light_op op = is_light (P.group_of op).image_type

  unfoldable pub wait_outputs : Handle → Call W (List Output)
  wait_outputs h = do outs ← P.wait h; λ w. (ok (verified_outputs (λ f. E.file_exists f w) outs), w)

  -- `vo[ vo.length - 1 ].path`; the list is not empty.
  abbrev pub last_path : List Output → Text
  last_path [] = []
  last_path (o ∷ []) = o.path
  last_path (o ∷ p ∷ os) = last_path (p ∷ os)

  -- The finalization in dispatchIntegrationBatch.
  unfoldable pub finalize_integration : Op → Cap Source → List Output → Call W (Unit {0})
  unfolding finalize_master finalize_light_master
  finalize_integration op cap vo =
      if is_light_op op
      then (do file ← finalize_light_master E (P.group_of op) vo cap; pure tt)
      else (do master ← finalize_master E (P.group_of op) (last_path vo); P.add_file master)

  -- What dispatchIntegrationBatch puts into the skeleton.
  abbrev pub integration_hooks : Hooks Op W
  integration_hooks = record {
    Status = P.Status;
    Cap = Cap Source;
    Handle = Handle;
    Output = Output;
    done = P.done;
    no_result = text "no integrated result";
    frames = λ op. length (P.group_of op).active_frames;
    run_native = P.run_native;
    capture = capture_ii E P;
    lease = λ i op cap.
        lease_job (text "integ-")
          (if is_light_op op then text "light_integration" else text "integration")
          (if is_light_op op then cap.companions else []) i cap;
    wait = wait_outputs;
    finalize = finalize_integration;
  }

  -- What dispatchLNRefBatch puts into it.
  abbrev pub ln_ref_hooks : Hooks Op W
  ln_ref_hooks = record {
    Status = P.Status;
    Cap = Cap Source;
    Handle = Handle;
    Output = Output;
    done = P.done;
    no_result = text "no reference result";
    frames = λ op. length (P.group_of op).active_frames;
    run_native = P.run_native;
    capture = capture_ln_ref_ii E P;
    lease = λ i op cap. lease_job (text "lnref-") (text "light_integration") cap.companions i cap;
    wait = wait_outputs;
    finalize = λ op cap vo. (do file ← finalize_ln_reference E (P.group_of op) vo; pure tt);
  }

  -- What dispatchDrizzleBatch puts into it.
  abbrev pub drizzle_hooks : Hooks Op W
  drizzle_hooks = record {
    Status = P.Status;
    Cap = Cap Source;
    Handle = Handle;
    Output = Output;
    done = P.done;
    no_result = text "no drizzle result";
    frames = λ op. length (P.group_of op).active_frames;
    run_native = P.run_native;
    capture = capture_drizzle E P;
    lease =
        λ i op cap. lease_job (text "drizzle-") (text "drizzle_integration") cap.companions i cap;
    wait = wait_outputs;
    finalize = λ op cap vo. (do file ← finalize_drizzle_master E (P.group_of op) vo; pure tt);
  }

  -- dispatchIntegrationBatch
  abbrev pub dispatch_integration_batch : List (Op × ℕ) → Call (State integration_hooks) (ℕ × ℕ)
  dispatch_integration_batch batch = dispatch_batch integration_hooks batch

  -- dispatchLNRefBatch
  abbrev pub dispatch_ln_ref_batch : List (Op × ℕ) → Call (State ln_ref_hooks) (ℕ × ℕ)
  dispatch_ln_ref_batch batch = dispatch_batch ln_ref_hooks batch

  -- dispatchDrizzleBatch
  abbrev pub dispatch_drizzle_batch : List (Op × ℕ) → Call (State drizzle_hooks) (ℕ × ℕ)
  dispatch_drizzle_batch batch = dispatch_batch drizzle_hooks batch
