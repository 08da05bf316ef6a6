-- ===== src/Queue/Batches.antt =====
-- What each gathering loop takes, leaves out, and stops at.
use distributed_wbpp.Prelude.{
  ℕ, ◌≤◌, ◌≡◌, refl, ◌≢◌, ◌↔◌, inl, inr, Bool, true, false, not, ◌&&◌, Option, none, some, List, [],
  ◌∷◌, ◌++◌, Text, text, arith, All, same_text, same_text_iff, is_empty, length, drop, Bool-cases,
  and-true,
}
use distributed_wbpp.Queue.{
  Frame, Group, Operation, taken, stopped, passed, is_light, at_other, group_verdict, has_prefix,
  all_exist, is_ready, gather_calib_batch, gather_light_batch, gather_drizzle_batch,
  gather_ln_ref_batch, scan,
}
use distributed_wbpp.Queue.Scan.{Gathered, scan-Gathered}

abbrev pub IsLogBlock : Operation → Type 0
IsLogBlock op = op.name ≡ []

-- A named operation that is not taken.
abbrev pub IsBoundary : (Operation → Type 0) → Operation → Type 0
IsBoundary Taken op = (op.name ≢ []) × ¬ Taken op

is_empty_iff : (s : Text) → (is_empty s ≡ true) ↔ (s ≡ [])
is_empty_iff [] = ground arith
is_empty_iff (c ∷ s) = ground arith

pub has_prefix_iff : (p s : Text) → (has_prefix p s ≡ true) ↔ ((rest : Text) × (p ++ rest ≡ s))
unfolding has_prefix same_text
has_prefix_iff [] s = (λ e. (s, refl), λ h. refl)
has_prefix_iff (c ∷ p) [] = (λ e. absurd (ground arith), λ h. absurd (ground arith))
has_prefix_iff (c ∷ p) (d ∷ s) =
    let ih = has_prefix_iff p s in
    (
      λ e. let (rest, same) = ih.0 (ground arith) in (rest, ground arith),
      λ h. let (rest, same) = h in let there = ih.1 (rest, ground arith) in ground arith,
    )

abbrev Picked : (Group → Bool) → (Group → Bool) → Option Group → Type 0
Picked mine fit group = (g : Group) × (group ≡ some g) × (mine g ≡ true) × (fit g ≡ true)

other_named : (name : Text) → at_other name ≡ stopped → name ≢ []
other_named name e h = absurd (ground arith)

other_passed : (name : Text) → at_other name ≡ passed → name ≡ []
other_passed [] e = refl
other_passed (c ∷ s) e = absurd (ground arith)

module _ (mine fit : Group → Bool) where
  Picked-taken :
      (group : Option Group) (name : Text)
      → group_verdict mine fit group name ≡ taken
      → Picked mine fit group
  Picked-taken none name e = absurd (ground arith)
  Picked-taken (some g) name e = (g, refl, ground arith, ground arith)

  picked_passed :
      (group : Option Group) (name : Text) → group_verdict mine fit group name ≡ passed → name ≡ []
  picked_passed none name e = other_passed name e
  picked_passed (some g) name e = other_passed name (ground arith)

  Picked-stopped :
      (group : Option Group) (name : Text)
      → ((g : Group) → mine g ≡ true → name ≢ [])
      → group_verdict mine fit group name ≡ stopped
      → (name ≢ []) × ¬ Picked mine fit group
  Picked-stopped none name named e = (other_named name e, λ h. absurd (ground arith))
  Picked-stopped (some g) name named e = elim (Bool-cases (mine g)) [
    | inl m ↦ (named g m, λ (h, same, mh, fh). absurd (ground arith))
    | inr m ↦ (other_named name (ground arith), λ (h, same, mh, fh). absurd (ground arith))
  ]

-- A loop that takes the operations of one kind whose group fulfils a test.
Gathered-by :
    (mine fit : Operation → Group → Bool) (Job : Operation → Type 0)
    → ((op : Operation) → Picked (mine op) (fit op) op.group ↔ Job op)
    → ((op : Operation) (g : Group) → mine op g ≡ true → op.name ≢ [])
    → (queue : List Operation)
    → Gathered Job IsLogBlock
        (IsBoundary Job)
        queue
        (scan (λ op. group_verdict (mine op) (fit op) op.group op.name) queue)
Gathered-by mine fit Job job named queue =
    scan-Gathered Job IsLogBlock (IsBoundary Job)
      (λ op. group_verdict (mine op) (fit op) op.group op.name)
      (λ op e. (job op).0 (Picked-taken (mine op) (fit op) op.group op.name e))
      (λ op e.
        let (some_name, other) = Picked-stopped (mine op) (fit op) op.group op.name (named op) e in
        (some_name, λ j. other ((job op).1 j)))
      (λ op e. picked_passed (mine op) (fit op) op.group op.name e) queue

named_text : (name : Text) (c : ℕ) (s : Text) → name ≡ c ∷ s → name ≢ []
named_text name c s e h = absurd (ground arith)

prefixed : (name : Text) → has_prefix (text "Drizzle Integration") name ≡ true → name ≢ []
unfolding has_prefix
prefixed [] m h = absurd (ground arith)
prefixed (c ∷ s) m h = absurd (ground arith)

ne-empty : (m : Text) → not (is_empty m) ≡ true → m ≢ []
ne-empty m h e = absurd (ground arith)

module _ (exists : Text → Bool) where
  -- At least three active frames, all of them on disk.
  abbrev pub IsReady : Group → Type 0
  IsReady g = (3 ≤ length g.active_frames) × All (λ f. exists f.current ≡ true) g.active_frames

  all_exist_iff :
      (fs : List Frame) → (all_exist exists fs ≡ true) ↔ All (λ f. exists f.current ≡ true) fs
  unfolding all_exist
  all_exist_iff [] = (λ e. tt, λ h. refl)
  all_exist_iff (f ∷ fs) = ground (arith, all_exist_iff fs)

  is_ready_iff : (g : Group) → (is_ready exists g ≡ true) ↔ IsReady g
  unfolding is_ready
  is_ready_iff g = ground (arith, all_exist_iff g.active_frames)

  abbrev pub IsCalibJob : Operation → Type 0
  IsCalibJob op =
      (g : Group) × (op.group ≡ some g)
      × (op.name ≡ text "Integration")
      × (is_light g.image_type ≡ false)
      × IsReady g

  abbrev pub IsLightJob : Operation → Type 0
  IsLightJob op =
      (g : Group) × (op.group ≡ some g)
      × (op.name ≡ text "Integration")
      × (is_light g.image_type ≡ true)
      × (g.fast_integration ≡ false)
      × IsReady g

  abbrev pub IsDrizzleJob : Operation → Type 0
  IsDrizzleJob op =
      (g : Group) × (op.group ≡ some g)
      × (has_prefix (text "Drizzle Integration") op.name ≡ true)
      × (g.master_file ≢ [])
      × (exists g.master_file ≡ true)

  calib-Picked :
      (op : Operation)
      → Picked
          (λ g. same_text op.name (text "Integration") && not (is_light g.image_type))
          (is_ready exists)
          op.group
        ↔ IsCalibJob op
  calib-Picked op = (
    λ (g, same, m, f). (
      g,
      same,
      (same_text_iff op.name _).0 (and-true _ _ m).0,
      ground arith,
      (is_ready_iff g).0 f,
    ),
    λ (g, same, n, t, r). (
      g,
      same,
      ground (arith, (same_text_iff op.name (text "Integration")).1 n),
      (is_ready_iff g).1 r,
    ),
  )

  light-Picked :
      (op : Operation)
      → Picked
          (λ g. same_text op.name (text "Integration") && is_light g.image_type)
          (λ g. not g.fast_integration && is_ready exists g)
          op.group
        ↔ IsLightJob op
  light-Picked op = (
    λ (g, same, m, f). (
      g,
      same,
      (same_text_iff op.name _).0 (and-true _ _ m).0,
      (and-true _ _ m).1,
      ground arith,
      (is_ready_iff g).0 (and-true _ _ f).1,
    ),
    λ (g, same, n, t, fast, r). (
      g,
      same,
      ground (arith, (same_text_iff op.name (text "Integration")).1 n),
      ground (arith, (is_ready_iff g).1 r),
    ),
  )

  drizzle-Picked :
      (op : Operation)
      → Picked
          (λ g. has_prefix (text "Drizzle Integration") op.name)
          (λ g. not (is_empty g.master_file) && exists g.master_file)
          op.group
        ↔ IsDrizzleJob op
  drizzle-Picked op = (
    λ (g, same, m, f). (g, same, m, ne-empty g.master_file (and-true _ _ f).0, (and-true _ _ f).1),
    λ (g, same, m, some_name, there). (g, same, m, ground (arith, is_empty_iff g.master_file)),
  )

  -- The calibration batch of a queue from an index on: the integrations of groups that are not light and
  -- have at least three active frames, all on disk, in order; log blocks between them are left out, and the
  -- first named operation that is no such integration ends the batch.
  pub gather_calib_batch_lem :
      (queue : List Operation) (i : ℕ)
      → Gathered IsCalibJob IsLogBlock
          (IsBoundary IsCalibJob)
          (drop i queue)
          (gather_calib_batch exists queue i)
  unfolding gather_calib_batch
  gather_calib_batch_lem queue i =
      Gathered-by _ _ IsCalibJob calib-Picked
        (λ op g m. named_text op.name b'I' _ ((same_text_iff op.name _).0 (and-true _ _ m).0))
        (drop i queue)

  -- The light batch: likewise the integrations of light groups without fast integration.
  pub gather_light_batch_lem :
      (queue : List Operation) (i : ℕ)
      → Gathered IsLightJob IsLogBlock
          (IsBoundary IsLightJob)
          (drop i queue)
          (gather_light_batch exists queue i)
  unfolding gather_light_batch
  gather_light_batch_lem queue i =
      Gathered-by _ _ IsLightJob light-Picked
        (λ op g m. named_text op.name b'I' _ ((same_text_iff op.name _).0 (and-true _ _ m).0))
        (drop i queue)

  -- The drizzle batch: the operations whose name begins with "Drizzle Integration", of groups whose master
  -- light is on disk.
  pub gather_drizzle_batch_lem :
      (queue : List Operation) (i : ℕ)
      → Gathered IsDrizzleJob IsLogBlock
          (IsBoundary IsDrizzleJob)
          (drop i queue)
          (gather_drizzle_batch exists queue i)
  unfolding gather_drizzle_batch
  gather_drizzle_batch_lem queue i =
      Gathered-by _ _ IsDrizzleJob drizzle-Picked (λ op g m. prefixed op.name m) (drop i queue)

abbrev pub IsLnRefJob : Operation → Type 0
IsLnRefJob op = (g : Group) × (op.group ≡ some g) × (op.name ≡ text "LN reference generation")

-- The batch of the LN references: the operations of that name that have a group.
pub gather_ln_ref_batch_lem :
    (queue : List Operation) (i : ℕ)
    → Gathered IsLnRefJob IsLogBlock
        (IsBoundary IsLnRefJob)
        (drop i queue)
        (gather_ln_ref_batch queue i)
unfolding gather_ln_ref_batch
gather_ln_ref_batch_lem queue i =
    Gathered-by _ _ IsLnRefJob
      (λ op. (
        λ (g, same, m, f). (g, same, (same_text_iff op.name _).0 m),
        λ (g, same, n). (g, same, (same_text_iff op.name _).1 n, refl),
      ))
      (λ op g m. named_text op.name b'L' _ ((same_text_iff op.name _).0 m)) (drop i queue)
