-- ===== src/Distribute/Whole.antt =====
-- The run of a distributed operation as WBPP sees it: the wrapped `operation.run` of wrapQueue in
-- pjsr/lib/WBPPShim.js.
use distributed_wbpp.Prelude.{
  ℕ, ◌≡◌, refl, true, false, List, [], ◌∷◌, ◌++◌, map, ◌⊎◌, inl, inr, Text, Outcome, ok, throw,
  arith, All, All-append, take-append-drop, take, drop, length, subst,
}
use distributed_wbpp.Split.{Number, slice_to, slice_from, index}
use distributed_wbpp.Calls.{Ends, >>=-Ends, returned, threw}
use distributed_wbpp.Operation.{
  Status, done, Mark, Descriptor, Naming, Report, Surroundings, is_failed, status_of, count_failed,
  named, Cluster,
}
use distributed_wbpp.Distribute.{
  State, lift, is_there, mark_frames, distribute_captured, split_point, present_refs, Result,
  native, distributed,
}
use distributed_wbpp.Distribute.Complete.{
  IsReliable, There, Lost, run_lanes_lem, marks_of_There, marks_of_Lost,
}

-- Every frame has a mark, none of them is a failure, and the status is DONE.
abbrev pub IsWhole : ℕ → Status → List Mark → Type 0
IsWhole n st ms = (st ≡ done) × (length ms ≡ n) × All (λ m. is_failed m ≡ false) ms

none_failed : (ms : List Mark) → All (λ m. is_failed m ≡ false) ms → count_failed ms ≡ 0
unfolding count_failed
none_failed [] h = refl
none_failed (m ∷ ms) (h, t) = ground (arith, none_failed ms t)

status_of_whole : (ms : List Mark) → All (λ m. is_failed m ≡ false) ms → status_of ms ≡ done
unfolding status_of
status_of_whole ms h = ground (arith, none_failed ms h)

module _ {W : Type 0} (J : Number) (S : Surroundings J W) where
  some_end : {A T : Type 0} (r : Outcome A × T) → Ends (λ _ _. Unit {0}) (λ _. Unit {0}) r
  some_end (ok a, t) = returned tt
  some_end (throw e, t) = threw tt

  length-mark_frames :
      (d : Descriptor) (n : Naming) (fs : List Text) (w : W)
      → length (mark_frames J S d n fs w).0 ≡ length fs
  unfolding mark_frames
  length-mark_frames d n [] w = refl
  length-mark_frames d n (f ∷ fs) w = omega (arith, length-mark_frames d n fs _)

  -- The first `k` frames are processed and the others fail: a wait for the cluster returned, and after it
  -- there was none of the outputs of those others.
  abbrev pub IsLost : Naming → ℕ → List Text → List Mark → Type 0
  IsLost n k inputs ms =
      (map is_failed ms ≡ map (λ f. false) (take k inputs) ++ map (λ f. true) (drop k inputs))
      × ((h : S.Handle) × (v : W) × (report : Report J.N) × (w : W) × (S.wait h v ≡ (ok report, w))
          × All (λ f. is_there J S n w f ≡ false) (drop k inputs))

  -- It is taken that a run of the process on the server returns and makes the output of each of its
  -- targets, and that no call removes a file. Then, if the distribution of the captured process returns:
  -- every frame has a mark, none is a failure
  -- and the status is DONE, even if the wait throws or brings some of the outputs only; or a wait
  -- returned with none of the outputs of the cluster's share there, and the marks are successes for the
  -- server's share and failures for the cluster's.
  pub distribute_captured-IsWhole :
      (c : Cluster) (d : Descriptor) (inputs : List Text) (p : S.Process) (s : State J S)
      → IsReliable J S (named S.dir_of d inputs (S.naming p))
      → Ends
          (λ r _.
            IsWhole (length inputs) r.0 r.1
            ⊎ IsLost
                (named S.dir_of d inputs (S.naming p))
                (index (split_point J c s.costs d.label (length inputs)))
                inputs
                r.1)
          (λ t. Unit {0})
          (distribute_captured J S c d inputs p s)
  unfolding distribute_captured slice_to slice_from
  distribute_captured-IsWhole c d inputs p s R =
      let n = named S.dir_of d inputs (S.naming p) in
      let at = index (split_point J c s.costs d.label (length inputs)) in
      >>=-Ends _ (some_end (lift J S (S.serialize p) s)) (λ source t _.
        >>=-Ends _
          (run_lanes_lem J S n R p (present_refs J S p s.world) source d.label (take at inputs)
            (drop at inputs) t)
          (λ _ u (servers, clients). returned (marked R at u.world servers clients)))
    where
      marked :
          (R : IsReliable J S (named S.dir_of d inputs (S.naming p))) (k : ℕ) (w : W)
          → There J S (named S.dir_of d inputs (S.naming p)) R w (take k inputs)
          → There J S (named S.dir_of d inputs (S.naming p)) R w (drop k inputs)
            ⊎ Lost J S (named S.dir_of d inputs (S.naming p)) R w (drop k inputs)
          → let n = named S.dir_of d inputs (S.naming p) in
            let ms = (mark_frames J S d n inputs w).0 in
            IsWhole (length inputs) (status_of ms) ms ⊎ IsLost n k inputs ms
      marked R k w servers (inl clients) =
          let n = named S.dir_of d inputs (S.naming p) in
          let all : There J S n R w inputs =
            subst (λ l. There J S n R w l) (take-append-drop k inputs)
              (All-append (λ f. is_there J S n w f ≡ true) (take k inputs) (drop k inputs) servers
                clients) in
          let good = marks_of_There J S n R d inputs w all in
          inl (status_of_whole _ good, length-mark_frames d n inputs w, good)
      marked R k w servers (inr lost) =
          let n = named S.dir_of d inputs (S.naming p) in
          let ((h, v, report, did), gone) = lost in
          inr (
            subst
                (λ l.
                  map is_failed (mark_frames J S d n l w).0
                  ≡ map (λ f. false) (take k inputs) ++ map (λ f. true) (drop k inputs))
                (take-append-drop k inputs)
                (marks_of_Lost J S n R d (take k inputs) (drop k inputs) w servers lost),
            (h, v, report, w, did, gone),
          )

  -- What the wrapped run gives: a status of a native run, a whole distribution, or one that lost the
  -- cluster's share.
  abbrev pub IsGood : Descriptor → List Text → Result J S → Type 0
  IsGood d inputs (native st) = Unit
  IsGood d inputs (distributed st ms) =
      IsWhole (length inputs) st ms
      ⊎ ((p : S.Process) × (k : ℕ) × IsLost (named S.dir_of d inputs (S.naming p)) k inputs ms)
