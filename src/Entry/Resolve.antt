-- ===== src/Entry/Resolve.antt =====
-- The binary that pjsr/DistributedWBPP.js chooses for the sidecar.
use distributed_wbpp.Prelude.{
  ◌≡◌, refl, sym, ◌⊎◌, inl, inr, Bool, true, false, Option, none, some, List, [], ◌∷◌, Text, arith,
  keep, Bool-cases, has_text, same_text, same_text_iff, same_text_refl, All, ◌||◌, subst,
}
use distributed_wbpp.Entry.{
  Shell, Platform, windows, mac, other_platform, sidecar_candidates, sidecar_runs, first_running,
  make_executable, first_repaired, resolve_sidecar, or_repaired, first_of,
}

-- The binaries of a list are tried one after the other, each in the world that the one before left, up to the
-- first that answers.
pub data Tried {W : Type 0} (try_one : Text → W → Bool × W)
    : List Text → W → Option Text → W → Type 0 where
  none_left : {w : W} → Tried try_one [] w none w
  answered :
      {f : Text} {fs : List Text} {w : W}
      → (try_one f w).0 ≡ true
      → Tried try_one (f ∷ fs) w (some f) (try_one f w).1
  silent :
      {f : Text} {fs : List Text} {w v : W} {o : Option Text}
      → (try_one f w).0 ≡ false
      → Tried try_one fs (try_one f w).1 o v
      → Tried try_one (f ∷ fs) w o v

module _ {W : Type 0} (S : Shell W) where
  -- A binary is asked for its version, after `chmod u+x` for a second try.
  abbrev pub ask : Text → W → Bool × W
  ask f w = sidecar_runs S f w

  abbrev pub ask_executable : Text → W → Bool × W
  ask_executable f w = sidecar_runs S f (make_executable S f w)

  abbrev pub present : W → List Text → List Text
  present w ps = keep (λ f. S.file_exists f w) ps

  -- All that are there are tried as they are; only where none of them answers, all are tried again, made
  -- executable.
  abbrev pub TriedTwice : List Text → W → Option Text → Type 0
  TriedTwice fs w o =
      ((v : W) × (f : Text) × (o ≡ some f) × Tried ask fs w (some f) v)
      ⊎ ((v : W) × Tried ask fs w none v × ((u : W) × Tried ask_executable fs v o u))

  abbrev pub IsPresent : W → List Text → Option Text → Type 0
  IsPresent w ps none = Unit
  IsPresent w ps (some f) = (has_text ps f ≡ true) × (S.file_exists f w ≡ true)

  -- What is known of the binary chosen from these, and where none is.
  abbrev pub Chosen : Platform → W → List Text → Option Text → Type 0
  Chosen windows w ps none = All (λ f. S.file_exists f w ≡ false) ps
  Chosen windows w ps (some f) = (has_text ps f ≡ true) × (S.file_exists f w ≡ true)
  Chosen mac w ps o = IsPresent w ps o × TriedTwice (present w ps) w o
  Chosen other_platform w ps o = IsPresent w ps o × TriedTwice (present w ps) w o

  first_running_lem :
      (ps : List Text) (w : W) → Tried ask ps w (first_running S ps w).0 (first_running S ps w).1
  unfolding first_running
  first_running_lem [] w = none_left
  first_running_lem (p ∷ ps) w = elim (Bool-cases (sidecar_runs S p w).0) [
    | inl e ↦ rw (e, first_running) (answered e)
    | inr e ↦ rw (e, first_running) (silent e (first_running_lem ps (sidecar_runs S p w).1))
  ]

  first_repaired_lem :
      (ps : List Text) (w : W)
      → Tried ask_executable ps w (first_repaired S ps w).0 (first_repaired S ps w).1
  unfolding first_repaired
  first_repaired_lem [] w = none_left
  first_repaired_lem (p ∷ ps) w =
      let v = make_executable S p w in
      elim (Bool-cases (sidecar_runs S p v).0) [
        | inl e ↦ rw (e, first_repaired) (answered e)
        | inr e ↦ rw (e, first_repaired) (silent e (first_repaired_lem ps (sidecar_runs S p v).1))
      ]

  or_repaired_lem :
      (fs : List Text) (w : W) (q : Option Text × W)
      → Tried ask fs w q.0 q.1
      → TriedTwice fs w (or_repaired S fs q).0
  or_repaired_lem fs w (none, v) h = inr (v, h, (_, first_repaired_lem fs v))
  or_repaired_lem fs w (some f, v) h = inl (v, f, refl, h)

  -- A binary that answered is one of those tried.
  Tried-has_text :
      {try_one : Text → W → Bool × W} {fs : List Text} {w v : W} {o : Option Text}
      → Tried try_one fs w o v
      → (f : Text) → o ≡ some f
      → has_text fs f ≡ true
  unfolding has_text
  Tried-has_text none_left f e = absurd cc
  Tried-has_text {fs = g ∷ gs} (answered h) f e =
      let same : g ≡ f = cc in rw (← same, same_text_refl g) refl
  Tried-has_text (silent h t) f e = ground (arith, Tried-has_text t f e)

  one_present :
      (w : W) (ps : List Text) (f : Text)
      → has_text (keep (λ f. S.file_exists f w) ps) f ≡ true
      → (has_text ps f ≡ true) × (S.file_exists f w ≡ true)
  unfolding has_text
  one_present w [] f h = absurd (ground arith)
  one_present w (p ∷ ps) f h = elim (Bool-cases (S.file_exists p w)) [
    | inl e ↦
        let k : (same_text p f || has_text (keep (λ f. S.file_exists f w) ps) f) ≡ true =
          rw e at h in
        elim (Bool-cases (same_text p f)) [
          | inl same ↦
              (ground arith, subst (λ t. S.file_exists t w ≡ true) ((same_text_iff p f).0 same) e)
          | inr apart ↦ let (a, b) = one_present w ps f (ground arith) in (ground arith, b)
        ]
    | inr e ↦ let (a, b) = one_present w ps f (rw e at h) in (ground arith, b)
  ]

  TriedTwice-IsPresent :
      (w : W) (ps : List Text) (o : Option Text) → TriedTwice (present w ps) w o → IsPresent w ps o
  TriedTwice-IsPresent w ps none h = tt
  TriedTwice-IsPresent w ps (some f) (inl (v, g, e, t)) =
      one_present w ps f (Tried-has_text t f (sym e))
  TriedTwice-IsPresent w ps (some f) (inr (v, t, (u, r))) =
      one_present w ps f (Tried-has_text r f refl)

  tried_lem :
      (w : W) (ps : List Text)
      → let fs = present w ps in
        let o = (or_repaired S fs (first_running S fs w)).0 in IsPresent w ps o × TriedTwice fs w o
  tried_lem w ps =
      let fs = present w ps in
      let twice = or_repaired_lem fs w _ (first_running_lem fs w) in
      (TriedTwice-IsPresent w ps _ twice, twice)

  first_later :
      (w : W) (p : Text) (ps : List Text) (o : Option Text)
      → S.file_exists p w ≡ false
      → Chosen windows w ps o
      → Chosen windows w (p ∷ ps) o
  unfolding has_text
  first_later w p ps none e h = (e, h)
  first_later w p ps (some f) e (a, b) = (ground arith, b)

  first_lem :
      (w : W) (ps : List Text) → Chosen windows w ps (first_of S (keep (λ f. S.file_exists f w) ps))
  unfolding has_text
  first_lem w [] = tt
  first_lem w (p ∷ ps) = elim (Bool-cases (S.file_exists p w)) [
    | inl e ↦ rw e (rw (same_text_refl p) refl, e)
    | inr e ↦ rw e (first_later w p ps _ e (first_lem w ps))
  ]

  -- The sidecar that is chosen is one of the shipped builds for this platform that is there. Off Windows
  -- the builds that are there are asked for their version one after the other, each in the world that the
  -- one before left, and the first that answers is chosen; only where none answers, all are asked again in
  -- their order, each after it was made executable, and the first that answers then is chosen, none where
  -- none does. On Windows none is chosen only where each of them is missing.
  pub resolve_sidecar_lem :
      (p : Platform) (here : Text) (w : W)
      → Chosen p w (sidecar_candidates p here) (resolve_sidecar S p here w).0
  unfolding resolve_sidecar
  resolve_sidecar_lem windows here w = first_lem w (sidecar_candidates windows here)
  resolve_sidecar_lem mac here w = tried_lem w (sidecar_candidates mac here)
  resolve_sidecar_lem other_platform here w = tried_lem w (sidecar_candidates other_platform here)
