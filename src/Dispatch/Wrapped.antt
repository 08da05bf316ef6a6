-- ===== src/Dispatch/Wrapped.antt =====
-- The wrapped `operation.run` of a batch in pjsr/lib/WBPPShim.js, and distributeCalibBatch and the others.
use distributed_wbpp.Prelude.{
  ℕ, suc, ◌+◌, ◌≡◌, ◌≢◌, refl, ◌∙◌, ap, inl, inr, Bool, ◌||◌, Option, none, some, List, [], ◌∷◌,
  arith, length, leb, ltb, if◌then◌else◌, Bool-cases,
}
use distributed_wbpp.Calls.{pure, ◌>>=◌, Returns, >>=-Ends, attempt-Ends, returned}
use distributed_wbpp.Dispatch.{
  Hooks, State, lift, with_machines, assigned_batch, distribute_batch, wrapped_run,
}
use distributed_wbpp.Dispatch.Steps.{IsCounted, native_lem}
use distributed_wbpp.Dispatch.Complete.{dispatch_batch-weight, one_of, all_keys}
use distributed_wbpp.Dispatch.Positions.{batch_weight}

-- Whether the batch is too short, or there is no worker.
abbrev pub is_local : {Op : Type 0} → List Op → ℕ → Bool
is_local batch n_workers = leb (length batch) 1 || ltb n_workers 1

abbrev pub total : {Op : Type 0} → (Op → ℕ) → List Op → ℕ
total weight [] = 0
total weight (op ∷ ops) = weight op + total weight ops

-- What a run of the first operation does: the whole batch, or this operation.
abbrev pub share : {Op : Type 0} → (Op → ℕ) → List Op → ℕ → Op → ℕ
share weight batch n_workers first =
    if is_local batch n_workers then weight first else total weight batch

module _ {Op W : Type 0} (H : Hooks Op W) (work : W → ℕ) (weight : Op → ℕ)
    (C : IsCounted H work weight) where
  length-with_machines :
      (assigned : List ((ℕ × Op) × ℕ)) (i : ℕ) (ops : List Op)
      → length (with_machines H assigned i ops) ≡ length ops
  length-with_machines assigned i [] = refl
  length-with_machines assigned i (op ∷ ops) =
      omega (arith, length-with_machines assigned (suc i) ops)

  pub length-assigned_batch :
      (batch : List Op) (n : ℕ) → length (assigned_batch H batch n) ≡ length batch
  unfolding assigned_batch
  length-assigned_batch batch n = length-with_machines _ 0 batch

  weight_of_assigned :
      (assigned : List ((ℕ × Op) × ℕ)) (i : ℕ) (ops : List Op)
      → batch_weight weight (with_machines H assigned i ops) ≡ total weight ops
  weight_of_assigned assigned i [] = refl
  weight_of_assigned assigned i (op ∷ ops) = omega (arith, weight_of_assigned assigned (suc i) ops)

  pub weight-assigned_batch :
      (batch : List Op) (n : ℕ)
      → batch_weight weight (assigned_batch H batch n) ≡ total weight batch
  unfolding assigned_batch
  weight-assigned_batch batch n = weight_of_assigned _ 0 batch

  abbrev pub Post : List Op → ℕ → Op → State H → Option H.Status → State H → Type 0
  Post batch n first s st t =
      (st ≢ none) × (work t.world ≡ work s.world + share weight batch n first)

  alone :
      (first : Op) (s : State H)
      → Returns
          (λ st t. (st ≢ none) × (work t.world ≡ work s.world + weight first))
          ((lift H (H.run_native first) >>= λ st. pure (some st)) s)
  alone first s =
      >>=-Ends _ (native_lem H work weight C first s)
        (λ st t (same, one). returned ((λ c. cc), one))

  -- One count of what is done.
  pub distribute_batch_weight :
      (batch : List Op) (n : ℕ) (first : Op) (s : State H)
      → ((i : ℕ) → s.marks i ≡ none)
      → Returns (λ st t. Post batch n first s st t) (distribute_batch H batch n first s)
  unfolding distribute_batch
  distribute_batch_weight batch n first s fresh = elim (Bool-cases (is_local batch n)) [
    | inl e ↦ rw (e, distribute_batch) (alone first s)
    | inr e ↦
        let same = length-assigned_batch batch n in
        rw (e, distribute_batch)
          (>>=-Ends _ (dispatch_batch-weight H work weight C (assigned_batch H batch n) s fresh)
            (λ counts t (marked, did, _). returned (
              marked 0 (ground (arith, same, e)),
              did ∙ ap (λ k. work s.world + k) (weight-assigned_batch batch n),
            )))
  ]

  pub wrapped_run-weight :
      (batch : List Op) (n_workers : ℕ) (first : Op) (s : State H)
      → ((i : ℕ) → s.marks i ≡ none)
      → Returns
          (λ st t. (st ≢ none) × (work t.world ≡ work s.world + share weight batch n_workers first))
          (wrapped_run H batch n_workers first s)
  unfolding wrapped_run
  wrapped_run-weight batch n first s fresh =
      rw (fresh 0, wrapped_run)
        (attempt-Ends {E = λ _. ⊥} _ (distribute_batch_weight batch n first s fresh)
          (λ e t h. absurd h))

module _ {Op W : Type 0} (H : Hooks Op W) (done : ℕ → W → ℕ) (key : Op → ℕ)
    (C : (k : ℕ) → IsCounted H (done k) (one_of key k)) where
  -- `done k` counts how often the operation with key `k` was done. It is taken that a native run of an
  -- operation returns and does it once, that a finalization of an operation that returns does it once, and
  -- that nothing else does any. Then the wrapped run of an operation, in a batch of which none is done,
  -- returns a status that is there. It did the whole batch, each operation once, that is for each key as
  -- often as the batch has an operation with it; or the one operation, once, where the batch has no second
  -- one or the cluster no worker. Captures, leases, waits and finalizations may throw.
  pub wrapped_run_complete :
      (batch : List Op) (n_workers : ℕ) (first : Op) (s : State H)
      → ((i : ℕ) → s.marks i ≡ none)
      → Returns
          (λ st t.
            (k : ℕ)
            → (st ≢ none)
              × (done k t.world ≡ done k s.world + share (one_of key k) batch n_workers first))
          (wrapped_run H batch n_workers first s)
  wrapped_run_complete batch n first s fresh =
      all_keys _ (λ k. wrapped_run-weight H (done k) (one_of key k) (C k) batch n first s fresh)
