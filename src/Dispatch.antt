-- ===== src/Dispatch.antt =====
-- The whole-job dispatchers of pjsr/lib/WBPPShim.js: dispatchIntegrationBatch, dispatchLNRefBatch and
-- dispatchDrizzleBatch share this skeleton, with their own capture, job and finalization. A batch is
-- leased to the cluster and run on the server; every failure of the cluster is made up for by a native
-- run. `W` is the state of WBPP, of the files and of the sidecar.
pub mod Positions
pub mod Steps
pub mod Leasing
pub mod Finishing
pub mod Complete
pub mod Wrapped
use distributed_wbpp.Prelude.{
  ℕ, zero, suc, ◌+◌, Bool, true, false, ◌||◌, Option, none, some, List, [], ◌∷◌, ◌++◌, Text, text,
  Outcome, ok, throw, length, leb, ltb, if◌then◌else◌, ◌==◌,
}
use distributed_wbpp.Machines.{assign_machines}
use distributed_wbpp.Calls.{Call, pure, raise, ◌>>=◌, ◌>>◌, attempt}

-- What a batch asks of its surroundings. `Cap` is what a capture yields, `Output` a verified output.
pub record Hooks (Op W : Type 0) : Type 1 where
  pub Status : Type 0
  pub Cap : Type 0
  pub Handle : Type 0
  pub Output : Type 0
  -- `OperationBlockStatus.DONE`
  pub done : Status
  pub no_result : Text
  -- `op.group.activeFrames().length`
  pub frames : Op → ℕ
  -- `op.__origRun.call( op, env, ri )`
  pub run_native : Op → W → Outcome Status × W
  pub capture : Op → W → Outcome Cap × W
  -- `__makeTempDir( tag + i )`, then `bridge.distributeAsync` of the job
  pub lease : ℕ → Op → Cap → W → Outcome Handle × W
  -- `__verifiedOutputs( bridge.distributeWait( handle ) )`
  pub wait : Handle → W → Outcome (List Output) × W
  pub finalize : Op → Cap → List Output → W → Outcome (Unit {0}) × W

module _ {Op W : Type 0} (H : Hooks Op W) where
  open H use {
    Status, Cap, Handle, Output, done, no_result, frames, run_native, capture, lease, wait,
    finalize,
  }

  -- `marks i` is `__clusterStatus` of the batch's operation `i`, and none while it is not
  -- `__clusterDone`.
  pub record State : Type 0 where
    pub world : W
    pub marks : ℕ → Option Status

  pub record Leased : Type 0 where
    pub index : ℕ
    pub op : Op
    pub cap : Cap
    pub handle : Handle

  -- A call that does not touch the marks.
  unfoldable pub lift : {A : Type 0} → (W → Outcome A × W) → Call State A
  lift m s = let (a, w) = m s.world in (a, record s { world = w })

  unfoldable pub mark : ℕ → Status → Call State (Unit {0})
  mark i st s = (ok tt, record s { marks = λ j. if i == j then some st else s.marks j })

  -- A native run whose status is kept.
  unfoldable pub run_and_mark : ℕ → Op → Call State (Unit {0})
  unfolding lift mark
  run_and_mark i op = do st ← lift (run_native op); mark i st

  -- The first loop, at one operation that is not the server's: leased, or run natively at once.
  unfoldable pub lease_one : ℕ → Op → Call State (Option Leased)
  unfolding lift run_and_mark
  lease_one i op =
      attempt
        (do
          cap ← lift (capture op)
          handle ← lift (lease i op cap)
          pure (some (record { index = i; op = op; cap = cap; handle = handle })))
        (λ e. do run_and_mark i op; pure none)

  abbrev pub add_lease : Option Leased → List Leased × ℕ → List Leased × ℕ
  add_lease (some l) (ls, n_local) = (l ∷ ls, n_local)
  add_lease none (ls, n_local) = (ls, n_local + 1)

  -- The first loop: what is leased, and how many operations ran natively instead. Machine 0 is the server.
  unfoldable pub lease_jobs : ℕ → List (Op × ℕ) → Call State (List Leased × ℕ)
  unfolding lease_one
  lease_jobs i [] = pure ([], 0)
  lease_jobs i ((op, zero) ∷ rest) = lease_jobs (suc i) rest
  lease_jobs i ((op, suc m) ∷ rest) = do
    l ← lease_one i op
    others ← lease_jobs (suc i) rest
    pure (add_lease l others)

  abbrev pub is_marked : Option Status → Bool
  is_marked none = false
  is_marked (some _) = true

  -- The second loop, at one operation of the server's: run unless it is done.
  unfoldable pub serve_one : ℕ → Op → Call State ℕ
  unfolding run_and_mark
  serve_one i op s = if is_marked (s.marks i) then (ok 0, s) else (do run_and_mark i op; pure 1) s

  unfoldable pub serve_jobs : ℕ → List (Op × ℕ) → Call State ℕ
  unfolding serve_one
  serve_jobs i [] = pure 0
  serve_jobs i ((op, zero) ∷ rest) = do
    n ← serve_one i op
    others ← serve_jobs (suc i) rest
    pure (n + others)
  serve_jobs i ((op, suc m) ∷ rest) = serve_jobs (suc i) rest

  abbrev pub finalize_some : Op → Cap → List Output → Call State (Unit {0})
  finalize_some op cap [] = raise no_result
  finalize_some op cap (o ∷ os) = lift (finalize op cap (o ∷ os))

  -- The third loop, at one lease: wait, finalize, and run natively if either fails.
  unfoldable pub join_one : Leased → Call State (Unit {0})
  unfolding lift mark
  join_one l = do
    st ←
        attempt (do outputs ← lift (wait l.handle); finalize_some l.op l.cap outputs; pure done)
          (λ e. lift (run_native l.op))
    mark l.index st

  unfoldable pub join_jobs : List Leased → Call State (Unit {0})
  unfolding join_one
  join_jobs [] = pure tt
  join_jobs (l ∷ ls) = do join_one l; join_jobs ls

  -- The counts of the last log line: native runs of the first two loops, and leases.
  unfoldable pub dispatch_batch : List (Op × ℕ) → Call State (ℕ × ℕ)
  unfolding lease_jobs serve_jobs join_jobs
  dispatch_batch batch = do
    (leases, early) ← lease_jobs 0 batch
    served ← serve_jobs 0 batch
    join_jobs leases
    pure (early + served, length leases)

  abbrev number : ℕ → List Op → List (ℕ × Op)
  number i [] = []
  number i (op ∷ ops) = (i, op) ∷ number (suc i) ops

  -- `op.__machine`, which the assignment set on the operation itself.
  abbrev machine_of : ℕ → List ((ℕ × Op) × ℕ) → ℕ
  machine_of i [] = 0
  machine_of i (((j, op), m) ∷ rest) = if i == j then m else machine_of i rest

  abbrev with_machines : List ((ℕ × Op) × ℕ) → ℕ → List Op → List (Op × ℕ)
  with_machines assigned i [] = []
  with_machines assigned i (op ∷ ops) =
      (op, machine_of i assigned) ∷ with_machines assigned (suc i) ops

  -- The batch with the machines that `__assignMachines` gives.
  unfoldable pub assigned_batch : List Op → ℕ → List (Op × ℕ)
  assigned_batch batch n_workers =
      with_machines (assign_machines (λ b. frames b.1) (number 0 batch) n_workers).0 0 batch

  -- distributeCalibBatch and the others: `first` is the operation that WBPP runs, and the batch's first.
  -- The result is `firstOp.__clusterStatus`, which may be undefined.
  unfoldable pub distribute_batch : List Op → ℕ → Op → Call State (Option Status)
  unfolding lift assigned_batch dispatch_batch
  distribute_batch batch n_workers first s =
      if leb (length batch) 1 || ltb n_workers 1
      then (do st ← lift (run_native first); pure (some st)) s
      else (do counts ← dispatch_batch (assigned_batch batch n_workers); λ t. (ok (t.marks 0), t)) s

  -- The wrapped `operation.run`: a status that is there, or the batch, or the operation alone.
  unfoldable pub wrapped_run : List Op → ℕ → Op → Call State (Option Status)
  unfolding distribute_batch
  wrapped_run batch n_workers first s = elim (s.marks 0) [
    | some st ↦ (ok (some st), s)
    | none ↦
        attempt (distribute_batch batch n_workers first)
          (λ e. do st ← lift (run_native first); pure (some st)) s
  ]
