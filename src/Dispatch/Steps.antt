-- ===== src/Dispatch/Steps.antt =====
-- What one lease, one native run and one join of pjsr/lib/WBPPShim.js do to a batch, when every call into
-- the cluster may throw.
use distributed_wbpp.Prelude.{
  ℕ, ◌+◌, ◌≡◌, ◌≢◌, refl, sym, ◌∙◌, ap, inl, inr, Option, none, some, List, [], ◌∷◌, Outcome, arith,
  if◌then◌else◌, ◌==◌, ==_iff, Bool-cases,
}
use distributed_wbpp.Calls.{Ends, Returns, >>=-Ends, attempt-Ends, returned, threw, Ends-map}
use distributed_wbpp.Dispatch.{
  Hooks, State, Leased, lift, mark, run_and_mark, lease_one, serve_one, finalize_some, join_one,
}

-- `work` counts what is done in a state, and `weight` what the run of an operation does: a native run
-- returns and does it, a finalization that returns does it, and nothing else does any.
pub record IsCounted {Op W : Type 0} (H : Hooks Op W) (work : W → ℕ) (weight : Op → ℕ)
    : Type 0 where
  pub native : (op : Op) (w : W) → Returns (λ _ v. work v ≡ work w + weight op) (H.run_native op w)
  pub capture :
      (op : Op) (w : W) → Ends (λ _ v. work v ≡ work w) (λ v. work v ≡ work w) (H.capture op w)
  pub lease :
      (i : ℕ) (op : Op) (c : H.Cap) (w : W)
      → Ends (λ _ v. work v ≡ work w) (λ v. work v ≡ work w) (H.lease i op c w)
  pub wait :
      (h : H.Handle) (w : W) → Ends (λ _ v. work v ≡ work w) (λ v. work v ≡ work w) (H.wait h w)
  pub finalize :
      (op : Op) (c : H.Cap) (outs : List H.Output) (w : W)
      → Ends (λ _ v. work v ≡ work w + weight op) (λ v. work v ≡ work w) (H.finalize op c outs w)

module _ {Op W : Type 0} (H : Hooks Op W) (work : W → ℕ) (weight : Op → ℕ)
    (C : IsCounted H work weight) where
  abbrev pub IsMarked : State H → ℕ → Type 0
  IsMarked s i = s.marks i ≢ none

  -- The marks are as before, and so many more integrations are done.
  abbrev Did : ℕ → State H → State H → Type 0
  Did n s t = (t.marks ≡ s.marks) × (work t.world ≡ work s.world + n)

  pub lift-Ends :
      {A : Type 0} {P : A → W → Type 0} {E : W → Type 0} (m : W → Outcome A × W) (s : State H)
      → Ends P E (m s.world)
      → Ends
          (λ a t. (t.marks ≡ s.marks) × P a t.world)
          (λ t. (t.marks ≡ s.marks) × E t.world)
          (lift H m s)
  unfolding lift
  lift-Ends {A} {P} {E} m s h = go (m s.world) h
    where
      go :
          (r : Outcome A × W)
          → Ends P E r
          → Ends
              (λ a t. (t.marks ≡ s.marks) × P a t.world)
              (λ t. (t.marks ≡ s.marks) × E t.world)
              (r.0, record s { world = r.1 })
      go _ (returned k) = returned (refl, k)
      go _ (threw k) = threw (refl, k)

  -- Only `i` was marked, and `n` was done.
  abbrev pub Marked : ℕ → ℕ → State H → State H → Type 0
  Marked n i s t =
      ((j : ℕ) → j ≢ i → t.marks j ≡ s.marks j) × IsMarked t i × (work t.world ≡ work s.world + n)

  mark_lem :
      (n i : ℕ) (st : H.Status) (s t : State H)
      → t.marks ≡ s.marks
      → work t.world ≡ work s.world + n
      → Returns (λ _ u. Marked n i s u) (mark H i st t)
  unfolding mark
  mark_lem n i st s t same one = returned (others, here, one)
    where
      others : (j : ℕ) → j ≢ i → (if i == j then some st else t.marks j) ≡ s.marks j
      others j apart = elim (Bool-cases (i == j)) [
        | inl e ↦ absurd (apart (sym ((==_iff i j).0 e)))
        | inr e ↦ rw e (ap (λ m. m j) same)
      ]

      here : (if i == i then some st else t.marks i) ≢ none
      here h = absurd (ground (arith, ==_iff i i))

  run_and_mark_lem :
      (i : ℕ) (op : Op) (s : State H)
      → Returns (λ _ t. Marked (weight op) i s t) (run_and_mark H i op s)
  unfolding run_and_mark
  run_and_mark_lem i op s =
      >>=-Ends (mark H i)
        (Ends-map (λ a t h. h) (λ t h. absurd h.1)
          (lift-Ends (H.run_native op) s (C.native op s.world)))
        (λ st t (same, one). mark_lem (weight op) i st s t same one)

  pub native_lem :
      (op : Op) (s : State H)
      → Returns
          (λ _ t. (t.marks ≡ s.marks) × (work t.world ≡ work s.world + weight op))
          (lift H (H.run_native op) s)
  native_lem op s =
      Ends-map (λ a t h. h) (λ t h. absurd h.1)
        (lift-Ends (H.run_native op) s (C.native op s.world))

  -- Nothing was marked or done.
  abbrev pub Same : State H → State H → Type 0
  Same s t = (t.marks ≡ s.marks) × (work t.world ≡ work s.world)

  pub Same-trans : {s t u : State H} → Same s t → Same t u → Same s u
  Same-trans (a, b) (c, d) = (c ∙ a, d ∙ b)

  lift-Same :
      {A : Type 0} (m : W → Outcome A × W) (s t : State H)
      → Same s t
      → Ends (λ _ v. work v ≡ work t.world) (λ v. work v ≡ work t.world) (m t.world)
      → Ends (λ _ u. Same s u) (λ u. Same s u) (lift H m t)
  lift-Same m s t st h =
      Ends-map (λ a u k. Same-trans st k) (λ u k. Same-trans st k) (lift-Ends m t h)

  abbrev pub LeasePost : ℕ → ℕ → State H → Option (Leased H) → State H → Type 0
  LeasePost n i s none t = Marked n i s t
  LeasePost n i s (some l) t = (l.index ≡ i) × (weight l.op ≡ n) × Same s t

  pub Marked-after : (n i : ℕ) (s t u : State H) → Same s t → Marked n i t u → Marked n i s u
  Marked-after n i s t u (same, w) (others, here, one) =
      (λ j apart. others j apart ∙ ap (λ m. m j) same, here, omega arith)

  pub lease_one_lem :
      (i : ℕ) (op : Op) (s : State H)
      → Returns (λ l t. LeasePost (weight op) i s l t) (lease_one H i op s)
  unfolding lease_one
  lease_one_lem i op s =
      attempt-Ends _
        (>>=-Ends _ (lift-Same (H.capture op) s s (refl, refl) (C.capture op s.world)) (λ cap t st.
          >>=-Ends _ (lift-Same (H.lease i op cap) s t st (C.lease i op cap t.world))
            (λ h u su. returned (refl, refl, su))))
        (λ e t st.
          >>=-Ends _ (run_and_mark_lem i op t)
            (λ _ u m. returned (Marked-after (weight op) i s t u st m)))

  pub Marked-keeps :
      (n i : ℕ) (s t : State H) → Marked n i s t → (j : ℕ) → IsMarked s j → IsMarked t j
  Marked-keeps n i s t (others, here, one) j m = elim (Bool-cases (j == i)) [
    | inl e ↦ rw ((==_iff j i).0 e) here
    | inr e ↦ λ h. m (sym (others j (λ same. absurd (ground (arith, ==_iff j i)))) ∙ h)
  ]

  pub serve_one_lem :
      (i : ℕ) (op : Op) (s : State H)
      → s.marks i ≡ none
      → Returns (λ n t. Marked (weight op) i s t × (n ≡ 1)) (serve_one H i op s)
  unfolding serve_one
  serve_one_lem i op s fresh =
      rw fresh (>>=-Ends _ (run_and_mark_lem i op s) (λ _ t m. returned (m, refl)))

  finalize_some_lem :
      (op : Op) (cap : H.Cap) (outs : List H.Output) (s t : State H)
      → Same s t
      → Ends
          (λ _ u. (u.marks ≡ s.marks) × (work u.world ≡ work s.world + weight op))
          (λ u. Same s u)
          (finalize_some H op cap outs t)
  finalize_some_lem op cap [] s t st = threw st
  finalize_some_lem op cap (o ∷ os) s t (same, w) =
      Ends-map (λ _ u (k, one). (k ∙ same, omega arith)) (λ u (k, e). (k ∙ same, e ∙ w))
        (lift-Ends (H.finalize op cap (o ∷ os)) t (C.finalize op cap (o ∷ os) t.world))

  pub join_one_lem :
      (l : Leased H) (s : State H)
      → Returns (λ _ t. Marked (weight l.op) l.index s t) (join_one H l s)
  unfolding join_one
  join_one_lem l s =
      >>=-Ends _
        (attempt-Ends {P = λ _ u. (u.marks ≡ s.marks) × (work u.world ≡ work s.world + weight l.op)}
          _
          (>>=-Ends _ (lift-Same (H.wait l.handle) s s (refl, refl) (C.wait l.handle s.world))
            (λ outs t st.
              >>=-Ends _ (finalize_some_lem l.op l.cap outs s t st) (λ _ u did. returned did)))
          (λ e t (same, w).
            Ends-map (λ st u (k, one). (k ∙ same, omega arith)) (λ u h. h) (native_lem l.op t)))
        (λ st t (same, one). mark_lem (weight l.op) l.index st s t same one)
