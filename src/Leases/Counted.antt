-- ===== src/Leases/Counted.antt =====
-- The batches of the three kinds of whole jobs in pjsr/lib/WBPPShim.js, with their own captures, jobs and
-- finalizations.
use distributed_wbpp.Prelude.{
  ℕ, suc, ◌∷◌, ◌∙◌, ap, arith, length, Outcome, Option-cases, ◌+◌, ◌≡◌, ◌≢◌, refl, inl, inr, Option,
  none, List, [], if◌then◌else◌, Bool-cases,
}
use distributed_wbpp.Calls.{Returns, Ends-map}
use distributed_wbpp.Windows.{Engine}
use distributed_wbpp.Leases.{integration_hooks, ln_ref_hooks, drizzle_hooks}
use distributed_wbpp.Captures.{Host}
use distributed_wbpp.Leases.Finalizing.{IsRegistering}
use distributed_wbpp.Dispatch.{wrapped_run}
use distributed_wbpp.Dispatch.Wrapped.{is_local, total, share, wrapped_run-weight}
use distributed_wbpp.Flats.{Drizzles, wrapped_flat_run, wrapped_drizzle_run}
use distributed_wbpp.Flats.Complete.{pending, cal_share, wrapped_flat_run-weight}
use distributed_wbpp.Flats.Drizzling.{IsTextual, wrapped_drizzle_run-weight}
use distributed_wbpp.Leases.Hooked.{integration-IsCounted, ln_ref-IsCounted, drizzle-IsCounted}

module _ {W : Type 0} (E : Engine W) (P : Host W) (work : W → ℕ) (R : IsRegistering E P work) where
  no_masters :
      {Cal Status : Type 0} (marks : ℕ → Option Status) (i : ℕ) (cs : List Cal)
      → pending (λ c. 0) marks i cs ≡ 0
  no_masters marks i [] = refl
  no_masters marks i (c ∷ cs) = elim (Option-cases (marks i)) [
    | inl e ↦ rw e (omega (arith, no_masters marks (suc i) cs))
    | inr (st, e) ↦ rw e (omega (arith, no_masters marks (suc i) cs))
  ]

  -- As many masters are registered as the batch has operations, or one.
  abbrev pub Mastered : W → List P.Op → ℕ → Option P.Status → W → Type 0
  Mastered w batch n_workers st v =
      (st ≢ none) × (work v ≡ work w + (if is_local batch n_workers then 1 else length batch))

  ones : (batch : List P.Op) → total (λ op. 1) batch ≡ length batch
  ones [] = refl
  ones (op ∷ ops) = omega (arith, ones ops)

  shared :
      (batch : List P.Op) (n : ℕ) (first : P.Op)
      → share (λ op. 1) batch n first ≡ (if is_local batch n then 1 else length batch)
  shared batch n first = elim (Bool-cases (is_local batch n)) [
    | inl e ↦ rw e refl
    | inr e ↦ rw e (ones batch)
  ]

  mastered :
      {S : Type 0} (world : S → W) (w : W) (batch : List P.Op) (n : ℕ) (first : P.Op)
      {r : Outcome (Option P.Status) × S}
      → Returns (λ st t. (st ≢ none) × (work (world t) ≡ work w + share (λ op. 1) batch n first)) r
      → Returns (λ st t. Mastered w batch n st (world t)) r
  mastered world w batch n first h =
      Ends-map {F = λ _. ⊥}
        (λ st t (there, did). (there, did ∙ ap (λ m. work w + m) (shared batch n first)))
        (λ t never. never) h

  module _ {Cal : Type 0} (run_cal : Cal → W → Outcome P.Status × W)
      (cal : (c : Cal) (w : W) → Returns (λ _ v. work v ≡ work w) (run_cal c w))
      (D : Drizzles P.Op W) (T : IsTextual D work) where
    flat_masters :
        (batch : List P.Op) (cals : List Cal) (n_workers : ℕ) (first : P.Op) (w : W)
        (marks : ℕ → Option P.Status)
        → Returns
            (λ st t. Mastered w batch n_workers st t.batch.world)
            (wrapped_flat_run
              (integration_hooks E P)
              run_cal
              batch
              cals
              n_workers
              first
              (record { batch = record { world = w; marks = λ i. none }; cals = marks }))
    flat_masters batch cals n first w marks =
        Ends-map {F = λ _. ⊥}
          (λ st t (there, did, _). (
            there,
            did
                ∙ ap (λ m. work w + m + share (λ op. 1) batch n first) (none_of batch n)
                ∙ plain (share (λ op. 1) batch n first)
                ∙ ap (λ m. work w + m) (shared batch n first),
          ))
          (λ t never. never)
          (wrapped_flat_run-weight (integration_hooks E P) run_cal work (λ op. 1) (λ c. 0)
            (integration-IsCounted E P work R)
            (λ c v. Ends-map {F = λ _. ⊥} (λ _ u e. omega (arith, e)) (λ u never. never) (cal c v))
            batch cals n first _ (λ i. refl))
      where
        none_of : (batch : List P.Op) (n : ℕ) → cal_share (λ c. 0) marks batch cals n ≡ 0
        none_of batch n = elim (Bool-cases (is_local batch n)) [
          | inl e ↦ rw e refl
          | inr e ↦ rw e (no_masters marks 0 cals)
        ]

        plain : (m : ℕ) → work w + 0 + m ≡ work w + m
        plain m = omega arith

    -- The wrapped runs of the four kinds: a calibration or light integration and an LN reference, a flat
    -- integration with its flat calibrations, and a drizzle integration with its normalization of drizzle
    -- files. Each, in a batch of which no operation is done, returns a status that is there, and as many
    -- masters were registered as the batch has operations, or one where it has no second one or the
    -- cluster no worker: whichever captures, leases, waits and finalizations throw. It is taken that a
    -- native run returns with one master registered, that `addFile`, `setMasterFileName` and the reference
    -- frame's field register one if they return, that the wrapped run of a flat calibration returns, that
    -- nothing else registers any, and that `processingFailed` returns.
    pub whole_job_run_complete :
        (batch : List P.Op) (cals : List Cal) (n_workers : ℕ) (first : P.Op) (w : W)
        (marks : ℕ → Option P.Status)
        → Returns
            (λ st t. Mastered w batch n_workers st t.world)
            (wrapped_run
              (integration_hooks E P)
              batch
              n_workers
              first
              (record { world = w; marks = λ i. none }))
          × Returns
              (λ st t. Mastered w batch n_workers st t.world)
              (wrapped_run
                (ln_ref_hooks E P)
                batch
                n_workers
                first
                (record { world = w; marks = λ i. none }))
          × Returns
              (λ st t. Mastered w batch n_workers st t.batch.world)
              (wrapped_flat_run
                (integration_hooks E P)
                run_cal
                batch
                cals
                n_workers
                first
                (record { batch = record { world = w; marks = λ i. none }; cals = marks }))
          × Returns
              (λ st t. Mastered w batch n_workers st t.world)
              (wrapped_drizzle_run D
                (drizzle_hooks E P)
                batch
                n_workers
                first
                (record { world = w; marks = λ i. none }))
    whole_job_run_complete batch cals n first w marks = (
      mastered (λ t. t.world) w batch n first
          (wrapped_run-weight (integration_hooks E P) work (λ op. 1)
            (integration-IsCounted E P work R) batch n first _ (λ i. refl)),
      mastered (λ t. t.world) w batch n first
          (wrapped_run-weight (ln_ref_hooks E P) work (λ op. 1) (ln_ref-IsCounted E P work R) batch
            n first _ (λ i. refl)),
      flat_masters batch cals n first w marks,
      mastered (λ t. t.world) w batch n first
          (wrapped_drizzle_run-weight D work T (drizzle_hooks E P) (λ op. 1)
            (drizzle-IsCounted E P work R) batch n first _ (λ i. refl)),
    )
