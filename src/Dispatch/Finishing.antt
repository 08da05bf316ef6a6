-- ===== src/Dispatch/Finishing.antt =====
-- What the other two loops of a dispatcher of pjsr/lib/WBPPShim.js leave.
use distributed_wbpp.Prelude.{
  ℕ, zero, suc, ◌+◌, ◌≡◌, refl, ◌∙◌, ◌⊎◌, inl, inr, none, List, [], ◌∷◌, arith,
}
use distributed_wbpp.Calls.{Returns, >>=-Ends, returned, Ends-map}
use distributed_wbpp.Dispatch.{Hooks, State, Leased, serve_jobs, join_jobs}
use distributed_wbpp.Dispatch.Positions.{IsServerAt, servers, server_weight, apart_of}
use distributed_wbpp.Dispatch.Steps.{
  IsCounted, IsMarked, Marked, serve_one_lem, join_one_lem, Marked-keeps,
}
use distributed_wbpp.Dispatch.Leasing.{HasLease, owed}

module _ {Op W : Type 0} (H : Hooks Op W) (work : W → ℕ) (weight : Op → ℕ)
    (C : IsCounted H work weight) where
  pub record ServesPost (i : ℕ) (b : List (Op × ℕ)) (s : State H) (n : ℕ) (t : State H)
      : Type 0 where
    pub kept : (j : ℕ) → IsMarked H work weight C s j → IsMarked H work weight C t j
    pub served : (j : ℕ) → IsServerAt i b j → IsMarked H work weight C t j
    pub counted : work t.world ≡ work s.world + server_weight weight b
    pub total : n ≡ servers b

  served_post :
      (i : ℕ) (op : Op) (rest : List (Op × ℕ)) (s t : State H) (n k : ℕ) (u : State H)
      → Marked H work weight C (weight op) i s t
      → n ≡ 1
      → ServesPost (suc i) rest t k u
      → ServesPost i ((op, zero) ∷ rest) s (n + k) u
  served_post i op rest s t n k u first one p = record {
    kept = λ j h. p.kept j (Marked-keeps H work weight C (weight op) i s t first j h);
    served = served;
    counted = omega (arith, p.counted, first.2);
    total = omega (arith, p.total, one);
  }
    where
      served : (j : ℕ) → (j ≡ i) ⊎ IsServerAt (suc i) rest j → IsMarked H work weight C u j
      served j (inl e) = rw e (p.kept i first.1)
      served j (inr h) = p.served j h

  pub serve_jobs_lem :
      (i : ℕ) (b : List (Op × ℕ)) (s : State H)
      → ((j : ℕ) → IsServerAt i b j → s.marks j ≡ none)
      → Returns (λ n t. ServesPost i b s n t) (serve_jobs H i b s)
  unfolding serve_jobs
  serve_jobs_lem i [] s fresh =
      returned (record {
        kept = λ j h. h;
        served = λ j h. elim h [ ];
        counted = omega arith;
        total = refl;
      })
  serve_jobs_lem i ((op, suc m) ∷ rest) s fresh =
      Ends-map
        (λ n t p. record { kept = p.kept; served = p.served; counted = p.counted; total = p.total })
        (λ t h. h) (serve_jobs_lem (suc i) rest s fresh)
  serve_jobs_lem i ((op, zero) ∷ rest) s fresh =
      >>=-Ends _ (serve_one_lem H work weight C i op s (fresh i (inl refl))) (λ n t (first, one).
        >>=-Ends _
          (serve_jobs_lem (suc i) rest t
            (λ j h. first.0 j (apart_of i rest j (inr h)) ∙ fresh j (inr h)))
          (λ k u p. returned (served_post i op rest s t n k u first one p)))

  pub record JoinsPost (ls : List (Leased H)) (s t : State H) : Type 0 where
    pub kept : (j : ℕ) → IsMarked H work weight C s j → IsMarked H work weight C t j
    pub joined : (j : ℕ) → HasLease H work weight C j ls → IsMarked H work weight C t j
    pub counted : work t.world ≡ work s.world + owed H work weight C ls

  joined_post :
      (l : Leased H) (ls : List (Leased H)) (s t u : State H)
      → Marked H work weight C (weight l.op) l.index s t
      → JoinsPost ls t u
      → JoinsPost (l ∷ ls) s u
  joined_post l ls s t u first p = record {
    kept = λ j h. p.kept j (Marked-keeps H work weight C (weight l.op) l.index s t first j h);
    joined = joined;
    counted = omega (arith, p.counted, first.2);
  }
    where
      joined :
          (j : ℕ) → (j ≡ l.index) ⊎ HasLease H work weight C j ls → IsMarked H work weight C u j
      joined j (inl e) = rw e (p.kept l.index first.1)
      joined j (inr h) = p.joined j h

  pub join_jobs_lem :
      (ls : List (Leased H)) (s : State H) → Returns (λ _ t. JoinsPost ls s t) (join_jobs H ls s)
  unfolding join_jobs
  join_jobs_lem [] s =
      returned (record { kept = λ j h. h; joined = λ j h. elim h [ ]; counted = omega arith })
  join_jobs_lem (l ∷ ls) s = >>=-Ends _ (join_one_lem H work weight C l s) (λ _ t first.
      Ends-map (λ _ u p. joined_post l ls s t u first p) (λ u h. h) (join_jobs_lem ls t))
