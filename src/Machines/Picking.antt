-- ===== src/Machines/Picking.antt =====
-- The least loaded machine, as __assignMachines of pjsr/lib/WBPPShim.js picks it.
use distributed_wbpp.Prelude.{
  ℕ, zero, suc, ◌+◌, ◌*◌, ◌≤◌, ◌<◌, ◌≡◌, refl, ap, List, [], ◌∷◌, arith, length, ltb, if◌then◌else◌,
  Bool-cases, inl, inr, ◌==◌, ◌⊎◌,
}
use distributed_wbpp.Machines.{pick_from, pick, add_load, zeros}

-- The load of machine `i`; 0 behind the last one.
abbrev pub load_at : List ℕ → ℕ → ℕ
load_at [] i = 0
load_at (l ∷ loads) zero = l
load_at (l ∷ loads) (suc i) = load_at loads i

-- The frames that machine `i` was given.
abbrev pub frames_of : {A : Type 0} → (A → ℕ) → ℕ → List (A × ℕ) → ℕ
frames_of frames i [] = 0
frames_of frames i ((job, m) ∷ rest) = (if m == i then frames job else 0) + frames_of frames i rest

-- A load as the code compares it, in tenths: the server counts 0.7.
abbrev pub weight : ℕ → ℕ → ℕ
weight zero l = 7 * l
weight (suc i) l = 10 * l

pub length-add_load : (loads : List ℕ) (i n : ℕ) → length (add_load loads i n) ≡ length loads
unfolding add_load
length-add_load [] i n = refl
length-add_load (l ∷ loads) zero n = refl
length-add_load (l ∷ loads) (suc i) n = ap suc (length-add_load loads i n)

pub load_at-add_load :
    (loads : List ℕ) (b n i : ℕ)
    → b < length loads
    → load_at (add_load loads b n) i ≡ load_at loads i + (if b == i then n else 0)
unfolding add_load
load_at-add_load [] b n i h = absurd (omega arith)
load_at-add_load (l ∷ loads) zero n zero h = refl
load_at-add_load (l ∷ loads) zero n (suc i) h = ground arith
load_at-add_load (l ∷ loads) (suc b) n zero h = ground arith
load_at-add_load (l ∷ loads) (suc b) n (suc i) h =
    ground (arith, load_at-add_load loads b n i (omega arith))

pub load_at-zeros : (n i : ℕ) → load_at (zeros n) i ≡ 0
unfolding zeros
load_at-zeros zero i = refl
load_at-zeros (suc n) zero = refl
load_at-zeros (suc n) (suc i) = load_at-zeros n i

pub length-zeros : (n : ℕ) → length (zeros n) ≡ n
unfolding zeros
length-zeros zero = refl
length-zeros (suc n) = ap suc (length-zeros n)

-- The outcome of the inner loop: what it began with, or the first smallest load.
abbrev Picked : List ℕ → ℕ → ℕ → ℕ → ℕ → Type 0
Picked loads m best best_load r =
    ((r ≡ best) × ((k : ℕ) → k < length loads → best_load ≤ 10 * load_at loads k))
    ⊎ ((k : ℕ) × (r ≡ m + k)
        × (k < length loads)
        × (10 * load_at loads k < best_load)
        × ((j : ℕ) → j < length loads → 10 * load_at loads k ≤ 10 * load_at loads j))

lower_all :
    (b l : ℕ) (loads : List ℕ)
    → b ≤ 10 * l
    → ((k : ℕ) → k < length loads → b ≤ 10 * load_at loads k)
    → (j : ℕ) → j < suc (length loads)
    → b ≤ 10 * load_at (l ∷ loads) j
lower_all b l loads h low zero _ = h
lower_all b l loads h low (suc j) p = low j (omega arith)

pick_from_lem :
    (loads : List ℕ) (m best best_load : ℕ)
    → Picked loads m best best_load (pick_from loads m best best_load)
unfolding pick_from
pick_from_lem [] m best best_load = inl (refl, λ k h. absurd (omega arith))
pick_from_lem (l ∷ loads) m best best_load = elim (Bool-cases (ltb (10 * l) best_load)) [
  | inl e ↦ rw e (elim (pick_from_lem loads (suc m) m (10 * l)) [
    | inl (same, low) ↦
        inr
          (0, omega arith, omega arith, ground arith, lower_all (10 * l) l loads (omega arith) low)
    | inr (k, same, within, below, low) ↦ inr (
      suc k,
      omega arith,
      omega arith,
      ground arith,
      lower_all (10 * load_at loads k) l loads (omega arith) low,
    )
  ])
  | inr e ↦ rw e (elim (pick_from_lem loads (suc m) best best_load) [
    | inl (same, low) ↦ inl (same, lower_all best_load l loads (ground arith) low)
    | inr (k, same, within, below, low) ↦ inr (
      suc k,
      omega arith,
      omega arith,
      below,
      lower_all (10 * load_at loads k) l loads (ground arith) low,
    )
  ])
]

-- The machine that is picked exists, and no machine has a smaller load as the code compares it.
pub pick_least :
    (loads : List ℕ)
    → 0 < length loads
    → (pick loads < length loads)
      × ((j : ℕ)
          → j < length loads
          → weight (pick loads) (load_at loads (pick loads)) ≤ weight j (load_at loads j))
unfolding pick
pick_least [] h = absurd (omega arith)
pick_least (s ∷ ws) h = elim (pick_from_lem ws 1 0 (7 * s)) [
  | inl (same, low) ↦ rw same (omega arith, from_server low)
  | inr (k, same, within, below, low) ↦
      let at : pick_from ws 1 0 (7 * s) ≡ suc k = omega arith in
      rw at (omega arith, from_worker k below low)
]
  where
    from_server :
        ((k : ℕ) → k < length ws → 7 * s ≤ 10 * load_at ws k)
        → (j : ℕ) → j < suc (length ws)
        → 7 * s ≤ weight j (load_at (s ∷ ws) j)
    from_server low zero p = omega arith
    from_server low (suc j) p = low j (omega arith)

    from_worker :
        (k : ℕ)
        → 10 * load_at ws k < 7 * s
        → ((j : ℕ) → j < length ws → 10 * load_at ws k ≤ 10 * load_at ws j)
        → (j : ℕ) → j < suc (length ws)
        → 10 * load_at ws k ≤ weight j (load_at (s ∷ ws) j)
    from_worker k below low zero p = omega arith
    from_worker k below low (suc j) p = low j (omega arith)
