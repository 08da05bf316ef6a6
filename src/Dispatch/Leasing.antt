-- ===== src/Dispatch/Leasing.antt =====
-- What the first loop of a dispatcher of pjsr/lib/WBPPShim.js leaves: an operation that is not the
-- server's is leased, or it has run.
use distributed_wbpp.Prelude.{
  ℕ, zero, suc, ◌+◌, ◌<◌, ◌≡◌, refl, sym, ◌∙◌, ap, ◌⊎◌, inl, inr, Option, none, some, List, [], ◌∷◌,
  arith, length,
}
use distributed_wbpp.Calls.{Returns, >>=-Ends, returned, Ends-map}
use distributed_wbpp.Dispatch.{Hooks, State, Leased, add_lease, lease_jobs}
use distributed_wbpp.Dispatch.Positions.{
  IsServerAt, IsClientAt, clients, client_weight, apart_of, later,
}
use distributed_wbpp.Dispatch.Steps.{
  IsCounted, IsMarked, Marked, Same, LeasePost, lease_one_lem, Marked-keeps,
}

module _ {Op W : Type 0} (H : Hooks Op W) (work : W → ℕ) (weight : Op → ℕ)
    (C : IsCounted H work weight) where
  abbrev pub HasLease : ℕ → List (Leased H) → Type 0
  HasLease j [] = ⊥
  HasLease j (l ∷ ls) = (j ≡ l.index) ⊎ HasLease j ls

  -- What the runs of the leased operations do.
  abbrev pub owed : List (Leased H) → ℕ
  owed [] = 0
  owed (l ∷ ls) = weight l.op + owed ls

  pub record LeasesPost (i : ℕ) (b : List (Op × ℕ)) (s : State H) (r : List (Leased H) × ℕ)
      (t : State H) : Type 0 where
    pub untouched : (j : ℕ) → (j < i) ⊎ IsServerAt i b j → t.marks j ≡ s.marks j
    pub kept : (j : ℕ) → IsMarked H work weight C s j → IsMarked H work weight C t j
    pub covered : (j : ℕ) → IsClientAt i b j → IsMarked H work weight C t j ⊎ HasLease j r.0
    pub counted : work t.world + owed r.0 ≡ work s.world + client_weight weight b
    pub total : r.1 + length r.0 ≡ clients b

  nil_post : (i : ℕ) (s : State H) → LeasesPost i [] s ([], 0) s
  nil_post i s = record {
    untouched = λ j h. refl;
    kept = λ j h. h;
    covered = λ j h. elim h [ ];
    counted = omega arith;
    total = omega arith;
  }

  server_post :
      (i : ℕ) (op : Op) (rest : List (Op × ℕ)) (s : State H) (r : List (Leased H) × ℕ) (t : State H)
      → LeasesPost (suc i) rest s r t
      → LeasesPost i ((op, zero) ∷ rest) s r t
  server_post i op rest s r t p = record {
    untouched = untouched;
    kept = p.kept;
    covered = p.covered;
    counted = p.counted;
    total = p.total;
  }
    where
      untouched : (j : ℕ) → (j < i) ⊎ IsServerAt i ((op, zero) ∷ rest) j → t.marks j ≡ s.marks j
      untouched j (inl lt) = p.untouched j (inl (omega arith))
      untouched j (inr (inl e)) = p.untouched j (inl (omega arith))
      untouched j (inr (inr h)) = p.untouched j (inr h)

  native_post :
      (i m : ℕ) (op : Op) (rest : List (Op × ℕ)) (s t : State H) (r : List (Leased H) × ℕ)
      (u : State H)
      → Marked H work weight C (weight op) i s t
      → LeasesPost (suc i) rest t r u
      → LeasesPost i ((op, suc m) ∷ rest) s (r.0, r.1 + 1) u
  native_post i m op rest s t r u first p = record {
    untouched = λ j h. p.untouched j (later i rest j h) ∙ first.0 j (apart_of i rest j h);
    kept = λ j k. p.kept j (Marked-keeps H work weight C (weight op) i s t first j k);
    covered = covered;
    counted = omega (arith, p.counted, first.2);
    total = omega (arith, p.total);
  }
    where
      covered :
          (j : ℕ)
          → (j ≡ i) ⊎ IsClientAt (suc i) rest j
          → IsMarked H work weight C u j ⊎ HasLease j r.0
      covered j (inl e) = inl (rw e (p.kept i first.1))
      covered j (inr h) = p.covered j h

  leased_post :
      (i m : ℕ) (op : Op) (rest : List (Op × ℕ)) (s t : State H) (l : Leased H)
      (r : List (Leased H) × ℕ) (u : State H)
      → (l.index ≡ i) × (weight l.op ≡ weight op) × Same H work weight C s t
      → LeasesPost (suc i) rest t r u
      → LeasesPost i ((op, suc m) ∷ rest) s (l ∷ r.0, r.1) u
  leased_post i m op rest s t l r u (idx, heavy, (same, w)) p = record {
    untouched = λ j h. p.untouched j (later i rest j h) ∙ ap (λ k. k j) same;
    kept = λ j k. p.kept j (λ h. k (sym (ap (λ k. k j) same) ∙ h));
    covered = covered;
    counted = omega (arith, p.counted, w, heavy);
    total = omega (arith, p.total);
  }
    where
      extend :
          (j : ℕ)
          → IsMarked H work weight C u j ⊎ HasLease j r.0
          → IsMarked H work weight C u j ⊎ HasLease j (l ∷ r.0)
      extend j (inl k) = inl k
      extend j (inr k) = inr (inr k)

      covered :
          (j : ℕ)
          → (j ≡ i) ⊎ IsClientAt (suc i) rest j
          → IsMarked H work weight C u j ⊎ HasLease j (l ∷ r.0)
      covered j (inl e) = inr (inl (e ∙ sym idx))
      covered j (inr h) = extend j (p.covered j h)

  client_post :
      (i m : ℕ) (op : Op) (rest : List (Op × ℕ)) (s t : State H) (l : Option (Leased H))
      (r : List (Leased H) × ℕ) (u : State H)
      → LeasePost H work weight C (weight op) i s l t
      → LeasesPost (suc i) rest t r u
      → LeasesPost i ((op, suc m) ∷ rest) s (add_lease H l r) u
  client_post i m op rest s t none r u first p = native_post i m op rest s t r u first p
  client_post i m op rest s t (some l) r u first p = leased_post i m op rest s t l r u first p

  pub lease_jobs_lem :
      (i : ℕ) (b : List (Op × ℕ)) (s : State H)
      → Returns (λ r t. LeasesPost i b s r t) (lease_jobs H i b s)
  unfolding lease_jobs
  lease_jobs_lem i [] s = returned (nil_post i s)
  lease_jobs_lem i ((op, zero) ∷ rest) s =
      Ends-map (λ r t p. server_post i op rest s r t p) (λ t h. h) (lease_jobs_lem (suc i) rest s)
  lease_jobs_lem i ((op, suc m) ∷ rest) s =
      >>=-Ends _ (lease_one_lem H work weight C i op s) (λ l t first.
        >>=-Ends _ (lease_jobs_lem (suc i) rest t)
          (λ r u p. returned (client_post i m op rest s t l r u first p)))
