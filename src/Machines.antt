-- ===== src/Machines.antt =====
-- `__assignMachines` of pjsr/lib/WBPPShim.js: which machine runs each integration of a batch.
-- Machine 0 is the server, 1 to `n_workers` are the workers; an operation is any type with its frame
-- count. The source compares `load[ 0 ] * 0.7` with whole loads. Written with tens, `7 * load[ 0 ]` with
-- `10 * load[ m ]`: below 2^50 frames the rounding of the product never passes a whole number, so both
-- comparisons agree.
pub mod Order
pub mod Picking
pub mod Balance
use distributed_wbpp.Prelude.{ℕ, zero, suc, ◌+◌, ◌*◌, Bool, List, [], ◌∷◌, ltb, leb, if◌then◌else◌}

module _ {A : Type 0} (frames : A → ℕ) where
  -- A stable insertion: `x`, which stood before all of the list, goes before the first element that has
  -- no more frames.
  unfoldable pub insert_job : A → List A → List A
  insert_job x [] = x ∷ []
  insert_job x (y ∷ ys) =
      let later = y ∷ insert_job x ys in if leb (frames y) (frames x) then x ∷ y ∷ ys else later

  -- `batch.slice().sort( ( a, b ) => b.__nFrames - a.__nFrames )`: the sort of the language is stable.
  unfoldable pub sort_jobs : List A → List A
  unfolding insert_job
  sort_jobs [] = []
  sort_jobs (x ∷ xs) = insert_job x (sort_jobs xs)

-- The inner loop: from machine `m` on, the first of the smallest loads, if one is below `best_load`
-- (which is in tens).
unfoldable pub pick_from : List ℕ → ℕ → ℕ → ℕ → ℕ
pick_from [] m best best_load = best
pick_from (l ∷ loads) m best best_load =
    let lower = ltb (10 * l) best_load in
    pick_from loads (suc m) (if lower then m else best) (if lower then 10 * l else best_load)

unfoldable pub pick : List ℕ → ℕ
unfolding pick_from
pick [] = 0
pick (server ∷ workers) = pick_from workers 1 0 (7 * server)

-- `load[ i ] += n`
unfoldable pub add_load : List ℕ → ℕ → ℕ → List ℕ
add_load [] i n = []
add_load (l ∷ loads) zero n = (l + n) ∷ loads
add_load (l ∷ loads) (suc i) n = l ∷ add_load loads i n

unfoldable pub zeros : ℕ → List ℕ
zeros zero = []
zeros (suc n) = 0 ∷ zeros n

module _ {A : Type 0} (frames : A → ℕ) where
  -- The assignments in the order of the loop, and the loads after it.
  unfoldable pub assign_from : List A → List ℕ → List (A × ℕ) × List ℕ
  unfolding pick add_load
  assign_from [] loads = ([], loads)
  assign_from (job ∷ jobs) loads =
      let best = pick loads in
      let (rest, final) = assign_from jobs (add_load loads best (frames job)) in
      ((job, best) ∷ rest, final)

  unfoldable pub assign_machines : List A → ℕ → List (A × ℕ) × List ℕ
  unfolding assign_from sort_jobs zeros
  assign_machines batch n_workers = assign_from (sort_jobs frames batch) (zeros (suc n_workers))
