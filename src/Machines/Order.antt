-- ===== src/Machines/Order.antt =====
-- The order in which the jobs are assigned: the largest first, and the batch's order among equals.
use mathlib.Core.List.{Perm}
use mathlib.Core.List.Perm
use distributed_wbpp.Prelude.{
  ℕ, ◌≤◌, ◌≡◌, refl, List, [], ◌∷◌, arith, All, All-map, leb, Bool-cases, inl, inr, keep, ◌==◌,
}
use distributed_wbpp.Machines.{insert_job, sort_jobs}

module _ {A : Type 0} (frames : A → ℕ) where
  abbrev pub IsDescending : List A → Type 0
  IsDescending [] = Unit
  IsDescending (x ∷ xs) = All (λ y. frames y ≤ frames x) xs × IsDescending xs

  insert_job-All :
      (P : A → Type 0) (x : A) (ys : List A) → P x → All P ys → All P (insert_job frames x ys)
  unfolding insert_job
  insert_job-All P x [] p h = (p, tt)
  insert_job-All P x (y ∷ ys) p (q, h) = ground (arith, insert_job-All P x ys p h)

  pub sort_jobs-All : (P : A → Type 0) (xs : List A) → All P xs → All P (sort_jobs frames xs)
  unfolding sort_jobs
  sort_jobs-All P [] h = tt
  sort_jobs-All P (x ∷ xs) (p, h) =
      insert_job-All P x (sort_jobs frames xs) p (sort_jobs-All P xs h)

  insert_job-perm : (x : A) (ys : List A) → Perm (insert_job frames x ys) (x ∷ ys)
  unfolding insert_job
  insert_job-perm x [] = Perm.refl (x ∷ [])
  insert_job-perm x (y ∷ ys) = elim (Bool-cases (leb (frames y) (frames x))) [
    | inl e ↦ rw e (Perm.refl (x ∷ y ∷ ys))
    | inr e ↦ rw e (Perm.trans (Perm.cons y (insert_job-perm x ys)) (Perm.swap x y ys))
  ]

  -- The sort keeps the jobs of a batch: it only reorders them.
  pub sort_jobs-perm : (xs : List A) → Perm (sort_jobs frames xs) xs
  unfolding sort_jobs
  sort_jobs-perm [] = Perm.refl []
  sort_jobs-perm (x ∷ xs) =
      Perm.trans (insert_job-perm x (sort_jobs frames xs)) (Perm.cons x (sort_jobs-perm xs))

  insert_job-IsDescending :
      (x : A) (ys : List A) → IsDescending ys → IsDescending (insert_job frames x ys)
  unfolding insert_job
  insert_job-IsDescending x [] h = (tt, tt)
  insert_job-IsDescending x (y ∷ ys) (low, h) = elim (Bool-cases (leb (frames y) (frames x))) [
    | inl e ↦
        let le : frames y ≤ frames x = ground arith in
        rw e ((le, All-map (λ z (p : frames z ≤ frames y). omega arith) ys low), (low, h))
    | inr e ↦
        let le : frames x ≤ frames y = ground arith in
        rw e (insert_job-All (λ z. frames z ≤ frames y) x ys le low, insert_job-IsDescending x ys h)
  ]

  -- No job comes after one with fewer frames.
  pub sort_jobs-IsDescending : (xs : List A) → IsDescending (sort_jobs frames xs)
  unfolding sort_jobs
  sort_jobs-IsDescending [] = tt
  sort_jobs-IsDescending (x ∷ xs) =
      insert_job-IsDescending x (sort_jobs frames xs) (sort_jobs-IsDescending xs)

  -- The jobs of one size keep their order.
  insert_job-stable :
      (n : ℕ) (x : A) (ys : List A)
      → keep (λ y. frames y == n) (insert_job frames x ys) ≡ keep (λ y. frames y == n) (x ∷ ys)
  unfolding insert_job
  insert_job-stable n x [] = refl
  insert_job-stable n x (y ∷ ys) = ground (arith, insert_job-stable n x ys)

  -- Jobs with the same number of frames keep the batch's order.
  pub sort_jobs-stable :
      (n : ℕ) (xs : List A)
      → keep (λ y. frames y == n) (sort_jobs frames xs) ≡ keep (λ y. frames y == n) xs
  unfolding sort_jobs
  sort_jobs-stable n [] = refl
  sort_jobs-stable n (x ∷ xs) =
      ground (arith, insert_job-stable n x (sort_jobs frames xs), sort_jobs-stable n xs)
