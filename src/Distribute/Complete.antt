-- ===== src/Distribute/Complete.antt =====
-- The two lanes of captureAndDistribute of pjsr/lib/WBPPShim.js, and what the join and the second run leave.
use distributed_wbpp.Prelude.{
  ◌+◌, ◌≡◌, refl, sym, ◌⊎◌, inl, inr, true, false, not, ◌&&◌, Option, none, some, List, [], ◌∷◌,
  ◌++◌, ◌∙◌, ok, throw, map, Text, Outcome, arith, All, All-map, length, keep, ltb, if◌then◌else◌,
  Bool-cases, subst,
}
use distributed_wbpp.Split.{Number}
use distributed_wbpp.Calls.{Ends, Returns, >>=-Ends, attempt-Ends, returned, threw, Ends-map}
use distributed_wbpp.Operation.{Mark, Descriptor, Naming, Report, Surroundings, is_failed}
use distributed_wbpp.Distribute.{
  State, lift, is_there, execute_some, send_some, join, missing, run_missing, run_lanes,
  mark_frames,
}
use distributed_wbpp.Distribute.Marks.{KeepsFiles, mark_frames_exact}

-- What the run of a process needs of its surroundings: on the server it returns and makes the output of each of
-- its targets; and no call, a wait that throws included, removes a file. Nothing is taken of what the cluster
-- brings; the serialization, the sending and the wait may throw.
pub record IsReliable {W : Type 0} (J : Number) (S : Surroundings J W) (n : Naming) : Type 0 where
  pub writes : KeepsFiles J S
  pub execute :
      (p : S.Process) (fs : List Text) (w : W)
      → Returns
          (λ _ v.
            ((f : Text) → S.file_exists f w ≡ true → S.file_exists f v ≡ true)
            × All (λ f. is_there J S n v f ≡ true) fs)
          (S.execute p fs w)
  pub wait :
      (h : S.Handle) (w : W)
      → Ends
          (λ _ v. (f : Text) → S.file_exists f w ≡ true → S.file_exists f v ≡ true)
          (λ v. (f : Text) → S.file_exists f w ≡ true → S.file_exists f v ≡ true)
          (S.wait h w)

module _ {W : Type 0} (J : Number) (S : Surroundings J W) (n : Naming) (R : IsReliable J S n) where
  -- No file was removed.
  abbrev Kept : W → W → Type 0
  Kept w v = (f : Text) → S.file_exists f w ≡ true → S.file_exists f v ≡ true

  abbrev pub There : W → List Text → Type 0
  There w fs = All (λ f. is_there J S n w f ≡ true) fs

  There-Kept : (w v : W) (fs : List Text) → Kept w v → There w fs → There v fs
  There-Kept w v fs k h = All-map (λ f e. k _ e) fs h

  pub lift-Ends :
      {A : Type 0} {P : A → W → Type 0} {E : W → Type 0} (m : W → Outcome A × W) (s : State J S)
      → Ends P E (m s.world)
      → Ends (λ a t. P a t.world) (λ t. E t.world) (lift J S m s)
  unfolding lift
  lift-Ends {A} {P} {E} m s h = go (m s.world) h
    where
      go :
          (r : Outcome A × W)
          → Ends P E r
          → Ends (λ a (t : State J S). P a t.world) (λ t. E t.world) (r.0, record s { world = r.1 })
      go _ (returned k) = returned k
      go _ (threw k) = threw k

  pub ends : {A T : Type 0} (r : Outcome A × T) → Ends (λ _ _. Unit {0}) (λ _. Unit {0}) r
  ends (ok a, t) = returned tt
  ends (throw e, t) = threw tt

  execute_some_lem :
      (p : S.Process) (fs : List Text) (s : State J S)
      → Returns (λ _ t. Kept s.world t.world × There t.world fs) (execute_some J S p fs s)
  unfolding execute_some
  execute_some_lem p [] s = returned (λ f e. e, tt)
  execute_some_lem p (f ∷ fs) s =
      Ends-map (λ a t h. h) (λ t h. absurd h)
        (lift-Ends (S.execute p (f ∷ fs)) s (R.execute p (f ∷ fs) s.world))

  -- A wait has just returned.
  abbrev pub Waited : W → Type 0
  Waited w = (h : S.Handle) × (v : W) × (report : Report J.N) × (S.wait h v ≡ (ok report, w))

  -- After it none of these outputs is there.
  abbrev pub Lost : W → List Text → Type 0
  Lost w fs = Waited w × All (λ f. is_there J S n w f ≡ false) fs

  wait_lem :
      (h : S.Handle) (w : W)
      → Ends (λ report v. Kept w v × (S.wait h w ≡ (ok report, v))) (Kept w) (S.wait h w)
  wait_lem h w = go (S.wait h w) refl (R.wait h w)
    where
      go :
          (r : Outcome (Report J.N) × W)
          → S.wait h w ≡ r
          → Ends (λ _. Kept w) (Kept w) r
          → Ends (λ report v. Kept w v × (S.wait h w ≡ (ok report, v))) (Kept w) r
      go _ e (returned k) = returned (k, e)
      go _ e (threw k) = threw k

  send_some_lem :
      (refs : List (Text × Text)) (source : S.Source) (fs : List Text) (s : State J S)
      → Ends (λ h t. (h ≡ none) → fs ≡ []) (λ t. Unit) (send_some J S refs source n fs s)
  unfolding send_some
  send_some_lem refs source [] s = returned (λ e. refl)
  send_some_lem refs source (f ∷ fs) s =
      >>=-Ends _ (ends (lift J S (S.send _) s)) (λ h t k. returned (λ e. absurd cc))

  -- After the join the cluster's frames are all there, or a wait has just returned.
  abbrev Joined : W → List Text → Type 0
  Joined w fs = There w fs ⊎ Waited w

  join_lem :
      (p : S.Process) (fs : List Text) (h : Option S.Handle) (s : State J S)
      → ((h ≡ none) → fs ≡ [])
      → Returns (λ _ t. Kept s.world t.world × Joined t.world fs) (join J S p fs h s)
  unfolding join
  join_lem p fs none s e = returned (λ f k. k, inl (subst (λ l. There s.world l) (sym (e refl)) tt))
  join_lem p fs (some h) s e =
      attempt-Ends {E = λ t. Kept s.world t.world} _
        (Ends-map (λ r t (k, did). (k, inr (h, s.world, r, did))) (λ t k. k)
          (lift-Ends (S.wait h) s (wait_lem h s.world)))
        (λ msg t k.
          >>=-Ends _ (lift-Ends (S.execute p fs) t (R.execute p fs t.world))
            (λ a u (kept, there). returned (λ f x. kept f (k f x), inl there)))

  there_and_missing :
      (w : W) (fs : List Text)
      → length (keep (is_there J S n w) fs) + length (missing J S n w fs) ≡ length fs
  unfolding missing
  there_and_missing w [] = refl
  there_and_missing w (f ∷ fs) = ground (arith, there_and_missing w fs)

  none_missing : (w : W) (fs : List Text) → length (missing J S n w fs) ≡ 0 → There w fs
  unfolding missing
  none_missing w [] h = tt
  none_missing w (f ∷ fs) h = elim (Bool-cases (is_there J S n w f)) [
    | inl e ↦ (e, none_missing w fs (ground arith))
    | inr e ↦ absurd (ground arith)
  ]

  all_missing :
      (w : W) (fs : List Text)
      → length (keep (is_there J S n w) fs) ≡ 0
      → All (λ f. is_there J S n w f ≡ false) fs
  all_missing w [] h = tt
  all_missing w (f ∷ fs) h = elim (Bool-cases (is_there J S n w f)) [
    | inl e ↦ absurd (ground arith)
    | inr e ↦ (e, all_missing w fs (ground arith))
  ]

  There-missing : (w v : W) (fs : List Text) → Kept w v → There v (missing J S n w fs) → There v fs
  unfolding missing
  There-missing w v [] k h = tt
  There-missing w v (f ∷ fs) k h = elim (Bool-cases (is_there J S n w f)) [
    | inl e ↦ (
      k _ e,
      There-missing w v fs k
          (subst (λ b. There v (if not b then f ∷ missing J S n w fs else missing J S n w fs)) e h),
    )
    | inr e ↦
        let (here, rest) : There v (f ∷ missing J S n w fs) =
          subst (λ b. There v (if not b then f ∷ missing J S n w fs else missing J S n w fs)) e h in
        (here, There-missing w v fs k rest)
  ]

  run_missing_lem :
      (p : S.Process) (fs : List Text) (s : State J S)
      → Joined s.world fs
      → Returns
          (λ _ t. Kept s.world t.world × (There t.world fs ⊎ Lost t.world fs))
          (run_missing J S p n fs s)
  unfolding run_missing
  run_missing_lem p fs s joined =
      elim (Bool-cases (
        ltb 0 (length (missing J S n s.world fs))
        && ltb (length (missing J S n s.world fs)) (length fs))) [
          | inl e ↦ rw e (
              attempt-Ends {E = λ _. ⊥} _
                (Ends-map (λ a t (k, h). (k, inl (There-missing s.world t.world fs k h))) (λ t h. h)
                  (lift-Ends (S.execute p _) s (R.execute p _ s.world)))
                (λ msg t h. absurd h))
          | inr e ↦ rw e (returned (λ f k. k, all joined e))
        ]
    where
      all :
          Joined s.world fs
          → (ltb 0 (length (missing J S n s.world fs))
              && ltb (length (missing J S n s.world fs)) (length fs))
            ≡ false
          → There s.world fs ⊎ Lost s.world fs
      all (inl h) e = inl h
      all (inr waited) e = elim (Bool-cases (ltb 0 (length (missing J S n s.world fs)))) [
        | inr no_gap ↦ inl (none_missing s.world fs (ground arith))
        | inl some_gone ↦
            let counts = there_and_missing s.world fs in
            let gone : length (keep (is_there J S n s.world) fs) ≡ 0 =
              ground (arith, e, some_gone, counts) in
            inr (waited, all_missing s.world fs gone)
      ]

  pub run_lanes_lem :
      (p : S.Process) (refs : List (Text × Text)) (source : S.Source) (label : Text)
      (servers clients : List Text) (s : State J S)
      → Ends
          (λ _ t. There t.world servers × (There t.world clients ⊎ Lost t.world clients))
          (λ t. Unit)
          (run_lanes J S p refs source label n servers clients s)
  unfolding run_lanes
  run_lanes_lem p refs source label servers clients s =
      >>=-Ends _ (send_some_lem refs source clients s) (λ h t handle.
        >>=-Ends _ (weak (execute_some_lem p servers t)) (λ _ u (k, there).
          >>=-Ends _ (weak (join_lem p clients h u handle)) (λ report v (kept, joined). weak (
            Ends-map
              (λ _ x (keeps, rest).
                (There-Kept u.world x.world servers (λ f e. keeps f (kept f e)) there, rest))
              (λ x h. h) (run_missing_lem p clients _ joined)))))
    where
      weak :
          {A : Type 0} {P : A → State J S → Type 0} {r : Outcome A × State J S}
          → Returns P r
          → Ends P (λ t. Unit {0}) r
      weak h = Ends-map (λ a t k. k) (λ t k. tt) h

  flags_of_Lost :
      (w : W) (xs ys : List Text)
      → There w xs
      → All (λ f. is_there J S n w f ≡ false) ys
      → map (λ f. not (is_there J S n w f)) (xs ++ ys) ≡ map (λ f. false) xs ++ map (λ f. true) ys
  flags_of_Lost w [] [] h k = refl
  flags_of_Lost w [] (y ∷ ys) h (e, k) = rw (e, flags_of_Lost w [] ys tt k) refl
  flags_of_Lost w (x ∷ xs) ys (e, h) k = rw (e, flags_of_Lost w xs ys h k) refl

  -- The marks where the first part is there and of the second nothing.
  pub marks_of_Lost :
      (d : Descriptor) (xs ys : List Text) (w : W)
      → There w xs
      → Lost w ys
      → map is_failed (mark_frames J S d n (xs ++ ys) w).0
        ≡ map (λ f. false) xs ++ map (λ f. true) ys
  marks_of_Lost d xs ys w h (_, k) =
      mark_frames_exact J S R.writes d n (xs ++ ys) w ∙ flags_of_Lost w xs ys h k

  pub marks_of_There :
      (d : Descriptor) (fs : List Text) (w : W)
      → There w fs
      → All (λ m. is_failed m ≡ false) (mark_frames J S d n fs w).0
  marks_of_There d fs w h = go _ fs h (mark_frames_exact J S R.writes d n fs w)
    where
      go :
          (ms : List Mark) (gs : List Text)
          → There w gs
          → map is_failed ms ≡ map (λ f. not (is_there J S n w f)) gs
          → All (λ m. is_failed m ≡ false) ms
      go [] gs k e = tt
      go (m ∷ ms) [] k e = cc
      go (m ∷ ms) (g ∷ gs) (here, rest) e =
          let head : is_failed m ≡ not (is_there J S n w g) = cc in
          (ground (arith, head, here), go ms gs rest cc)
