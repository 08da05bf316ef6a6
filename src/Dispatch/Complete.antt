-- ===== src/Dispatch/Complete.antt =====
-- A batch that pjsr/lib/WBPPShim.js dispatches, as a whole.
use distributed_wbpp.Prelude.{
  ℕ, ◌+◌, ◌<◌, ◌≡◌, ◌≢◌, ◌∙◌, ◌⊎◌, inl, inr, none, List, arith, length, Outcome, ok, throw,
  if◌then◌else◌, ◌==◌,
}
use distributed_wbpp.Calls.{Returns, >>=-Ends, returned, threw}
use distributed_wbpp.Dispatch.{Hooks, State, Leased, dispatch_batch}
use distributed_wbpp.Dispatch.Positions.{position_cases, sizes, batch_weight, weights}
use distributed_wbpp.Dispatch.Steps.{IsCounted, IsMarked}
use distributed_wbpp.Dispatch.Leasing.{HasLease, LeasesPost, lease_jobs_lem}
use distributed_wbpp.Dispatch.Finishing.{ServesPost, serve_jobs_lem, JoinsPost, join_jobs_lem}

module _ {Op W : Type 0} (H : Hooks Op W) (work : W → ℕ) (weight : Op → ℕ)
    (C : IsCounted H work weight) where
  -- One count of what is done.
  pub dispatch_batch-weight :
      (batch : List (Op × ℕ)) (s : State H)
      → ((i : ℕ) → s.marks i ≡ none)
      → Returns
          (λ counts t.
            ((i : ℕ) → i < length batch → t.marks i ≢ none)
            × (work t.world ≡ work s.world + batch_weight weight batch)
            × (counts.0 + counts.1 ≡ length batch))
          (dispatch_batch H batch s)
  unfolding dispatch_batch
  dispatch_batch-weight batch s fresh =
      >>=-Ends _ (lease_jobs_lem H work weight C 0 batch s) (λ r t leased.
        >>=-Ends _
          (serve_jobs_lem H work weight C 0 batch t (λ j h. leased.untouched j (inr h) ∙ fresh j))
          (λ n u served. >>=-Ends _ (join_jobs_lem H work weight C r.0 u) (λ _ v joined. returned (
            λ i h. finished i r.0 u v joined (ended i h r.0 t u leased served),
            omega (arith, leased.counted, served.counted, joined.counted, weights weight batch),
            omega (arith, leased.total, served.total, sizes batch),
          ))))
    where
      finished :
          (i : ℕ) (ls : List (Leased H)) (u v : State H)
          → JoinsPost H work weight C ls u v
          → IsMarked H work weight C u i ⊎ HasLease H work weight C i ls
          → IsMarked H work weight C v i
      finished i ls u v joined (inl k) = joined.kept i k
      finished i ls u v joined (inr l) = joined.joined i l

      ended :
          (i : ℕ)
          → i < length batch
          → {early : ℕ} {n : ℕ} (ls : List (Leased H)) (t u : State H)
          → LeasesPost H work weight C 0 batch s (ls, early) t
          → ServesPost H work weight C 0 batch t n u
          → IsMarked H work weight C u i ⊎ HasLease H work weight C i ls
      ended i h ls t u leased served = elim (position_cases 0 batch i (omega arith) (omega arith)) [
        | inl server ↦ inl (served.served i server)
        | inr client ↦ elim (leased.covered i client) [
          | inl k ↦ inl (served.kept i k)
          | inr l ↦ inr l
        ]
      ]

-- The weight of the operations with a key: one each.
abbrev pub one_of : {Op : Type 0} → (Op → ℕ) → ℕ → Op → ℕ
one_of key k op = if key op == k then 1 else 0

-- What holds of each key for itself holds for all of them.
pub all_keys :
    {A S : Type 0} {P : ℕ → A → S → Type 0} (r : Outcome A × S)
    → ((k : ℕ) → Returns (P k) r)
    → Returns (λ a s. (k : ℕ) → P k a s) r
all_keys {A} {S} {P} (ok a, s) h = returned (λ k. of_one k (h k))
  where
    of_one : (k : ℕ) → Returns (P k) (ok a, s) → P k a s
    of_one k (returned p) = p
all_keys {A} {S} {P} (throw e, s) h = absurd (never (h 0))
  where
    never : Returns (P 0) (throw e, s) → ⊥
    never (threw n) = n

module _ {Op W : Type 0} (H : Hooks Op W) (done : ℕ → W → ℕ) (key : Op → ℕ)
    (C : (k : ℕ) → IsCounted H (done k) (one_of key k)) where
  -- `done k` counts how often the operation with key `k` was done. It is taken that a native run of an
  -- operation returns and does it once, that a finalization of an operation that returns does it once, and
  -- that nothing else does any. Then a fresh batch comes to its end: every operation of it has a status;
  -- each operation was done once, natively or by the cluster, that is for each key as often as the batch
  -- has an operation with it, and none that the batch has not; and the native runs of the first two loops
  -- with the leases are the whole batch. Captures, leases, waits and finalizations may all throw.
  pub dispatch_batch_complete :
      (batch : List (Op × ℕ)) (s : State H)
      → ((i : ℕ) → s.marks i ≡ none)
      → Returns
          (λ counts t.
            (k : ℕ)
            → ((i : ℕ) → i < length batch → t.marks i ≢ none)
              × (done k t.world ≡ done k s.world + batch_weight (one_of key k) batch)
              × (counts.0 + counts.1 ≡ length batch))
          (dispatch_batch H batch s)
  dispatch_batch_complete batch s fresh =
      all_keys _ (λ k. dispatch_batch-weight H (done k) (one_of key k) (C k) batch s fresh)
