-- ===== src/Flats/Complete.antt =====
-- The flat batch of pjsr/lib/WBPPShim.js, with its flat calibrations.
use distributed_wbpp.Prelude.{
  ℕ, suc, ◌+◌, ◌≡◌, ◌≢◌, ◌≤◌, ◌<◌, refl, sym, ◌∙◌, ap, inl, inr, ◌⊎◌, true, Option, none, some,
  List, [], ◌∷◌, Outcome, arith, length, if◌then◌else◌, ◌==◌, Bool-cases, Option-cases, ==_iff,
}
use distributed_wbpp.Calls.{pure, ◌>>=◌, Returns, >>=-Ends, attempt-Ends, Ends-map, returned, threw}
use distributed_wbpp.Dispatch.{Hooks, State, lift, assigned_batch, dispatch_batch}
use distributed_wbpp.Dispatch.Steps.{IsCounted, native_lem, lift-Ends}
use distributed_wbpp.Dispatch.Complete.{dispatch_batch-weight, one_of, all_keys}
use distributed_wbpp.Dispatch.Wrapped.{
  is_local, share, length-assigned_batch, weight-assigned_batch,
}
use distributed_wbpp.Flats.{
  Flats, on_batch, run_one_cal, run_cals, distribute_flat_batch, wrapped_flat_run,
}

-- What the calibrations do that have no mark.
abbrev pub pending : {Cal Status : Type 0} → (Cal → ℕ) → (ℕ → Option Status) → ℕ → List Cal → ℕ
pending weight marks i [] = 0
pending weight marks i (c ∷ cs) =
    elim (marks i) [ none ↦ weight c | some st ↦ 0 ] + pending weight marks (suc i) cs

pending_same :
    {Cal Status : Type 0} (weight : Cal → ℕ) (f g : ℕ → Option Status) (i : ℕ) (cs : List Cal)
    → ((j : ℕ) → i ≤ j → f j ≡ g j)
    → pending weight f i cs ≡ pending weight g i cs
pending_same weight f g i [] h = refl
pending_same weight f g i (c ∷ cs) h =
    rw (h i (omega arith), pending_same weight f g (suc i) cs (λ j k. h j (omega arith))) refl

-- And in a batch: nothing where the batch has no second integration or the cluster no worker.
abbrev pub cal_share :
    {Op Cal Status : Type 0} → (Cal → ℕ) → (ℕ → Option Status) → List Op → List Cal → ℕ → ℕ
cal_share weight marks ints cals n_workers =
    if is_local ints n_workers then 0 else pending weight marks 0 cals

module _ {Op Cal W : Type 0} (H : Hooks Op W) (run_cal : Cal → W → Outcome H.Status × W)
    (work : W → ℕ) (weight : Op → ℕ) (cal_weight : Cal → ℕ) (C : IsCounted H work weight)
    (cal : (c : Cal) (w : W) → Returns (λ _ v. work v ≡ work w + cal_weight c) (run_cal c w)) where
  abbrev Fl : Type 0
  Fl = Flats H run_cal

  on_batch-Returns :
      {A : Type 0} {P : A → State H → Type 0} (m : State H → Outcome A × State H) (s : Fl)
      → Returns P (m s.batch)
      → Returns (λ a t. (t.cals ≡ s.cals) × P a t.batch) (on_batch H run_cal m s)
  unfolding on_batch
  on_batch-Returns {A} {P} m s h = go (m s.batch) h
    where
      go :
          (r : Outcome A × State H)
          → Returns P r
          → Returns (λ a t. (t.cals ≡ s.cals) × P a t.batch) (r.0, record s { batch = r.1 })
      go _ (returned k) = returned (refl, k)
      go _ (threw never) = absurd never

  cal_lem :
      (c : Cal) (b : State H)
      → Returns
          (λ _ t. (t.marks ≡ b.marks) × (work t.world ≡ work b.world + cal_weight c))
          (lift H (run_cal c) b)
  cal_lem c b =
      Ends-map {F = λ _. ⊥} (λ _ t h. h) (λ t h. h.1)
        (lift-Ends H work weight C (run_cal c) b (cal c b.world))

  -- The integrations' marks are as before, and `n` was done.
  abbrev Did : ℕ → Fl → Fl → Type 0
  Did n s t = (t.batch.marks ≡ s.batch.marks) × (work t.batch.world ≡ work s.batch.world + n)

  one_cal_lem :
      (i : ℕ) (c : Cal) (s : Fl)
      → Returns
          (λ _ t.
            (t.cals i ≢ none)
            × Did (elim (s.cals i) [ none ↦ cal_weight c | some st ↦ 0 ]) s t
            × ((j : ℕ) → j ≢ i → t.cals j ≡ s.cals j))
          (run_one_cal H run_cal i c s)
  unfolding run_one_cal
  one_cal_lem i c s = elim (Option-cases (s.cals i)) [
    | inr (st, e) ↦ rw (e, run_one_cal) (returned ((λ h. cc), (refl, omega arith), λ j h. refl))
    | inl e ↦
        rw (e, run_one_cal)
          (>>=-Ends _ (on_batch-Returns (lift H (run_cal c)) s (cal_lem c s.batch))
            (λ st t (same, did). returned (here st t.cals, did, others st t.cals same)))
  ]
    where
      here : (st : H.Status) (f : ℕ → Option H.Status) → (if i == i then some st else f i) ≢ none
      here st f h = absurd (ground (arith, h))

      others :
          (st : H.Status) (f : ℕ → Option H.Status)
          → f ≡ s.cals
          → (j : ℕ) → j ≢ i
          → (if i == j then some st else f j) ≡ s.cals j
      others st f same j apart = elim (Bool-cases (i == j)) [
        | inl e ↦ absurd (apart (sym ((==_iff i j).0 e)))
        | inr e ↦ rw e (ap (λ m. m j) same)
      ]

  cals_lem :
      (k : ℕ) (cs : List Cal) (s : Fl)
      → Returns
          (λ _ t.
            ((i : ℕ) → k ≤ i → i < k + length cs → t.cals i ≢ none)
            × Did (pending cal_weight s.cals k cs) s t
            × ((j : ℕ) → j < k → t.cals j ≡ s.cals j))
          (run_cals H run_cal k cs s)
  unfolding run_cals
  cals_lem k [] s = returned ((λ i h l. absurd (omega arith)), (refl, omega arith), λ j h. refl)
  cals_lem k (c ∷ cs) s = >>=-Ends _ (one_cal_lem k c s) (λ _ t (here, (m, n), others).
      Ends-map {F = λ _. ⊥}
        (λ _ u (rest, (m', n'), before). (
          λ i h l. all i h l t u here (before k (omega arith)) rest,
          (m' ∙ m, omega (arith, n', n, left t others)),
          λ j lt. before j (omega arith) ∙ others j (λ e. absurd (omega (arith, e))),
        ))
        (λ u never. never) (cals_lem (suc k) cs t))
    where
      left :
          (t : Fl)
          → ((j : ℕ) → j ≢ k → t.cals j ≡ s.cals j)
          → pending cal_weight t.cals (suc k) cs ≡ pending cal_weight s.cals (suc k) cs
      left t others =
          pending_same cal_weight t.cals s.cals (suc k) cs
            (λ j h. others j (λ e. absurd (omega (arith, e))))

      all :
          (i : ℕ)
          → k ≤ i
          → i < k + length (c ∷ cs)
          → (t u : Fl) → t.cals k ≢ none
          → u.cals k ≡ t.cals k
          → ((j : ℕ) → suc k ≤ j → j < suc k + length cs → u.cals j ≢ none)
          → u.cals i ≢ none
      all i h l t u here same rest = elim (Bool-cases (i == k)) [
        | inl e ↦ let at : i ≡ k = ground arith in rw at (λ no. here (sym same ∙ no))
        | inr e ↦ rest i (ground arith) (omega arith)
      ]

  alone :
      (first : Op) (s : Fl)
      → Returns
          (λ st t. (st ≢ none) × (work t.batch.world ≡ work s.batch.world + weight first))
          ((on_batch H run_cal (lift H (H.run_native first)) >>= λ st. pure (some st)) s)
  alone first s =
      >>=-Ends _
        (on_batch-Returns (lift H (H.run_native first)) s
          (native_lem H work weight C first s.batch))
        (λ st t (_, (_, one)). returned ((λ h. cc), one))

  abbrev pub FlatPost : List Op → List Cal → ℕ → Op → Fl → Option H.Status → Fl → Type 0
  FlatPost ints cals n first s st t =
      (st ≢ none)
      × (work t.batch.world
          ≡ work s.batch.world
            + cal_share cal_weight s.cals ints cals n
            + share weight ints n first)
      × ((is_local ints n ≡ true) ⊎ ((i : ℕ) → i < length cals → t.cals i ≢ none))

  -- One count of what is done.
  pub wrapped_flat_run-weight :
      (ints : List Op) (cals : List Cal) (n_workers : ℕ) (first : Op) (s : Fl)
      → ((i : ℕ) → s.batch.marks i ≡ none)
      → Returns
          (λ st t. FlatPost ints cals n_workers first s st t)
          (wrapped_flat_run H run_cal ints cals n_workers first s)
  unfolding wrapped_flat_run distribute_flat_batch
  wrapped_flat_run-weight ints cals n first s fresh =
      rw (fresh 0, wrapped_flat_run) (attempt-Ends {E = λ _. ⊥} _ inner (λ e t h. absurd h))
    where
      inner :
          Returns
            (λ st t. FlatPost ints cals n first s st t)
            (distribute_flat_batch H run_cal ints cals n first s)
      inner = elim (Bool-cases (is_local ints n)) [
        | inl e ↦
            rw (e, distribute_flat_batch)
              (Ends-map {F = λ _. ⊥} (λ st t (there, one). (there, omega (arith, one), inl refl))
                (λ t never. never) (alone first s))
        | inr e ↦
            let size = length-assigned_batch H work weight C ints n in
            let heavy = weight-assigned_batch H work weight C ints n in
            rw (e, distribute_flat_batch)
              (>>=-Ends _ (cals_lem 0 cals s) (λ _ t (all, (marks, count), _).
                >>=-Ends _
                  (on_batch-Returns (dispatch_batch H (assigned_batch H ints n)) t (
                    dispatch_batch-weight H work weight C (assigned_batch H ints n) t.batch
                      (λ i. ap (λ m. m i) marks ∙ fresh i)))
                  (λ counts u (same, (marked, did, _)). returned (
                    marked 0 (ground (arith, size, e)),
                    omega (arith, did, heavy, count),
                    inr (λ i l k. all i (omega arith) (omega arith) (ap (λ f. f i) (sym same) ∙ k)),
                  ))))
      ]

module _ {Op Cal W : Type 0} (H : Hooks Op W) (run_cal : Cal → W → Outcome H.Status × W)
    (done : ℕ → W → ℕ) (key : Op → ℕ) (cal_key : Cal → ℕ)
    (C : (k : ℕ) → IsCounted H (done k) (one_of key k))
    (cal : (k : ℕ) (c : Cal) (w : W)
      → Returns (λ _ v. done k v ≡ done k w + one_of cal_key k c) (run_cal c w)) where
  -- `done k` counts how often the integration or the flat calibration with key `k` was done. It is taken
  -- that a native run of an integration and the wrapped run of a calibration return and do it once, that a
  -- finalization of an integration that returns does it once, and that nothing else does any. Then the
  -- wrapped run of a flat integration, in a batch of which none is done, returns a status that is there.
  -- It did the whole batch: each flat calibration that had no mark once, and no other, so that each has a
  -- mark, and each integration once; or it did the one integration, once, and no calibration, where the
  -- batch has no second integration or the cluster no worker. Captures, leases, waits and finalizations may
  -- throw.
  pub wrapped_flat_run_complete :
      (ints : List Op) (cals : List Cal) (n_workers : ℕ) (first : Op) (s : Flats H run_cal)
      → ((i : ℕ) → s.batch.marks i ≡ none)
      → Returns
          (λ st t.
            (k : ℕ)
            → (st ≢ none)
              × (done k t.batch.world
                  ≡ done k s.batch.world
                    + cal_share (one_of cal_key k) s.cals ints cals n_workers
                    + share (one_of key k) ints n_workers first)
              × ((is_local ints n_workers ≡ true) ⊎ ((i : ℕ) → i < length cals → t.cals i ≢ none)))
          (wrapped_flat_run H run_cal ints cals n_workers first s)
  wrapped_flat_run_complete ints cals n first s fresh = all_keys _ (λ k.
      wrapped_flat_run-weight H run_cal (done k) (one_of key k) (one_of cal_key k) (C k) (cal k)
        ints cals n first s fresh)
