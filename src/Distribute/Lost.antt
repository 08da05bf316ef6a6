-- ===== src/Distribute/Lost.antt =====
-- What captureAndDistribute of pjsr/lib/WBPPShim.js does when the cluster brings nothing and no error.
use distributed_wbpp.Prelude.{
  ◌≡◌, refl, true, false, not, ◌&&◌, List, [], ◌∷◌, map, Text, ok, arith, All, length, ltb,
}
use distributed_wbpp.Split.{Number}
use distributed_wbpp.Operation.{Descriptor, Naming, Mark, Surroundings, is_failed}
use distributed_wbpp.Distribute.{State, is_there, missing, run_missing, mark_frames}
use distributed_wbpp.Distribute.Marks.{KeepsFiles, mark_frames_exact}

module _ {W : Type 0} (J : Number) (S : Surroundings J W) (K : KeepsFiles J S) where
  all_missing :
      (n : Naming) (w : W) (fs : List Text)
      → All (λ f. is_there J S n w f ≡ false) fs
      → missing J S n w fs ≡ fs
  unfolding missing
  all_missing n w [] h = refl
  all_missing n w (f ∷ fs) (e, h) = rw (e, all_missing n w fs h)

  all_failed :
      (n : Naming) (w : W) (ms : List Mark) (fs : List Text)
      → All (λ f. is_there J S n w f ≡ false) fs
      → map is_failed ms ≡ map (λ f. not (is_there J S n w f)) fs
      → All (λ m. is_failed m ≡ true) ms
  all_failed n w [] fs h e = tt
  all_failed n w (m ∷ ms) [] h e = cc
  all_failed n w (m ∷ ms) (f ∷ fs) (here, h) e =
      let head : is_failed m ≡ not (is_there J S n w f) = cc in
      (ground (arith, head, here), all_failed n w ms fs h cc)

  -- If after the join none of the cluster's outputs is there, nothing is run again, and each of the
  -- cluster's frames is marked as a failure.
  pub cluster_frames_lost :
      (d : Descriptor) (n : Naming) (p : S.Process) (clients : List Text) (s : State J S)
      → All (λ f. is_there J S n s.world f ≡ false) clients
      → (run_missing J S p n clients s ≡ (ok tt, s))
        × All (λ m. is_failed m ≡ true) (mark_frames J S d n clients s.world).0
  unfolding run_missing
  cluster_frames_lost d n p clients s h =
      let e : (ltb 0 (length (missing J S n s.world clients))
            && ltb (length (missing J S n s.world clients)) (length clients))
          ≡ false =
        rw (all_missing n s.world clients h) (ground arith) in
      (rw e refl, all_failed n s.world _ clients h (mark_frames_exact J S K d n clients s.world))
