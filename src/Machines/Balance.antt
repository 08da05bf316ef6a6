-- ===== src/Machines/Balance.antt =====
-- The loads that the greedy assignment leaves.
use distributed_wbpp.Machines.Picking.{
  load_at, frames_of, weight, length-add_load, load_at-add_load, load_at-zeros, length-zeros,
  pick_least,
}
use distributed_wbpp.Prelude.{
  ℕ, zero, suc, ◌+◌, ◌≤◌, ◌<◌, ◌≡◌, refl, ◌∙◌, ap, List, [], ◌∷◌, arith, All, All-map, length,
  Bool-cases, keep, inl, inr, ◌==◌, map, subst, ==_iff,
}
use distributed_wbpp.Machines.{pick, add_load, zeros, assign_from, assign_machines, sort_jobs}
use mathlib.Core.List.{Perm}
use distributed_wbpp.Machines.Order.{
  IsDescending, sort_jobs-All, sort_jobs-perm, sort_jobs-IsDescending, sort_jobs-stable,
}

weight-add : (i a b : ℕ) → weight i (a + b) ≡ weight i a + weight i b
weight-add zero a b = omega arith
weight-add (suc i) a b = omega arith

weight_mono : (i a b : ℕ) → a ≤ b → weight i a ≤ weight i b
weight_mono zero a b h = omega arith
weight_mono (suc i) a b h = omega arith

weight_zero : (i : ℕ) → weight i 0 ≡ 0
weight_zero zero = omega arith
weight_zero (suc i) = omega arith

-- No machine has more than a largest job over any other, in the code's comparison.
abbrev IsBalanced : ℕ → List ℕ → Type 0
IsBalanced cap loads =
    (i j : ℕ)
    → i < length loads
    → j < length loads
    → weight i (load_at loads i) ≤ weight j (load_at loads j) + weight i cap

add_load-IsBalanced :
    (cap n : ℕ) (loads : List ℕ)
    → n ≤ cap
    → 0 < length loads
    → IsBalanced cap loads
    → IsBalanced cap (add_load loads (pick loads) n)
add_load-IsBalanced cap n loads le some_machine bal i j hi hj =
    let (within, least) = pick_least loads some_machine in
    let new_j = load_at-add_load loads (pick loads) n j within in
    let hi' : i < length loads = omega (arith, length-add_load loads (pick loads) n) in
    let hj' : j < length loads = omega (arith, length-add_load loads (pick loads) n) in
    let grows : weight j (load_at loads j) ≤ weight j (load_at (add_load loads (pick loads) n) j) =
      weight_mono j _ _ (omega (arith, new_j)) in
    rw (load_at-add_load loads (pick loads) n i within) (elim (Bool-cases (pick loads == i)) [
      | inl e ↦
          let same : pick loads ≡ i = (==_iff _ _).0 e in
          let low : weight i (load_at loads i) ≤ weight j (load_at loads j) =
            subst (λ k. weight k (load_at loads k) ≤ weight j (load_at loads j)) same
              (least j hj') in
          rw e (omega (arith, weight-add i (load_at loads i) n, weight_mono i n cap le))
      | inr e ↦ rw e (
          omega (
            arith,
            weight-add i (load_at loads i) 0,
            weight_mono i 0 cap (omega arith),
            bal i j hi' hj',
            weight_zero i,
          ))
    ])

module _ {A : Type 0} (frames : A → ℕ) (cap : ℕ) where
  abbrev Fits : A → Type 0
  Fits job = frames job ≤ cap

  assign_from-IsBalanced :
      (jobs : List A) (loads : List ℕ)
      → All Fits jobs
      → 0 < length loads
      → IsBalanced cap loads
      → IsBalanced cap (assign_from frames jobs loads).1
  unfolding assign_from
  assign_from-IsBalanced [] loads h some_machine bal = bal
  assign_from-IsBalanced (job ∷ jobs) loads (le, h) some_machine bal =
      assign_from-IsBalanced jobs (add_load loads (pick loads) (frames job)) h
        (omega (arith, length-add_load loads (pick loads) (frames job)))
        (add_load-IsBalanced cap (frames job) loads le some_machine bal)

module _ {A : Type 0} (frames : A → ℕ) where
  length-assign_from :
      (jobs : List A) (loads : List ℕ) → length (assign_from frames jobs loads).1 ≡ length loads
  unfolding assign_from
  length-assign_from [] loads = refl
  length-assign_from (job ∷ jobs) loads =
      length-assign_from jobs (add_load loads (pick loads) (frames job))
      ∙ length-add_load loads (pick loads) (frames job)

  -- Every job gets a machine that exists, and each load is the frames of its jobs on top.
  assign_from_lem :
      (jobs : List A) (loads : List ℕ)
      → 0 < length loads
      → (map (λ b. b.0) (assign_from frames jobs loads).0 ≡ jobs)
        × All (λ b. b.1 < length loads) (assign_from frames jobs loads).0
        × ((i : ℕ)
            → load_at (assign_from frames jobs loads).1 i
              ≡ load_at loads i + frames_of frames i (assign_from frames jobs loads).0)
  unfolding assign_from
  assign_from_lem [] loads h = (refl, tt, λ i. omega arith)
  assign_from_lem (job ∷ jobs) loads h =
      let new_loads = add_load loads (pick loads) (frames job) in
      let same_length = length-add_load loads (pick loads) (frames job) in
      let within = (pick_least loads h).0 in
      let (jobs_kept, machines, sums) = assign_from_lem jobs new_loads (omega arith) in
      (
        ap (λ r. job ∷ r) jobs_kept,
        (within, All-map (λ b (p : b.1 < length new_loads). omega arith) _ machines),
        λ i. omega (arith, sums i, load_at-add_load loads (pick loads) (frames job) i within),
      )

  -- The jobs are those of the batch, each once; no job comes after one with fewer frames, and jobs with the
  -- same number of frames keep the batch's order; each is given the server or one of the workers; and what
  -- a machine is loaded with is the frames of the jobs that it was given.
  pub assign_machines_lem :
      (batch : List A) (n_workers : ℕ)
      → let (jobs, loads) = assign_machines frames batch n_workers in
        let in_order = map (λ b. b.0) jobs in
        Perm in_order batch
        × IsDescending frames in_order
        × ((n : ℕ) → keep (λ job. frames job == n) in_order ≡ keep (λ job. frames job == n) batch)
        × All (λ b. b.1 ≤ n_workers) jobs
        × ((i : ℕ) → load_at loads i ≡ frames_of frames i jobs)
  unfolding assign_machines
  assign_machines_lem batch n_workers =
      let size = length-zeros (suc n_workers) in
      let (kept, machines, sums) =
        assign_from_lem (sort_jobs frames batch) (zeros (suc n_workers)) (omega arith) in
      (
        rw kept (sort_jobs-perm frames batch),
        rw kept (sort_jobs-IsDescending frames batch),
        λ n. rw kept (sort_jobs-stable frames n batch),
        All-map (λ b (p : b.1 < length (zeros (suc n_workers))). omega arith) _ machines,
        λ i. omega (arith, sums i, load_at-zeros (suc n_workers) i),
      )

  -- The server's load counts 0.7. So counted, no machine ends with more than one job of the largest size
  -- over any other machine: the greedy assignment is balanced to within a job.
  pub assign_machines_balanced :
      (batch : List A) (n_workers cap : ℕ)
      → All (λ job. frames job ≤ cap) batch
      → (i j : ℕ) → i ≤ n_workers
      → j ≤ n_workers
      → let loads = (assign_machines frames batch n_workers).1 in
        weight i (load_at loads i) ≤ weight j (load_at loads j) + weight i cap
  unfolding assign_machines
  assign_machines_balanced batch n_workers cap small i j hi hj =
      let size = length-zeros (suc n_workers) in
      let start = zeros (suc n_workers) in
      let kept = length-assign_from (sort_jobs frames batch) start in
      assign_from-IsBalanced frames cap (sort_jobs frames batch) start
        (sort_jobs-All frames (λ job. frames job ≤ cap) batch small) (omega arith)
        (λ k l _ _. rw (load_at-zeros (suc n_workers) k) (omega (arith, weight_zero k))) i j
        (omega arith) (omega arith)
