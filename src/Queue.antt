-- ===== src/Queue.antt =====
-- The batches of pjsr/lib/WBPPShim.js: which operations of WBPP's queue are dispatched together. A queue
-- is the list of its operations; `exists` is `File.exists`.
pub mod Scan
pub mod Batches
use distributed_wbpp.Prelude.{
  ℕ, zero, suc, Bool, true, false, not, ◌&&◌, ◌||◌, Option, none, some, List, [], ◌∷◌, Text, text,
  same_text, is_empty, ltb, length, drop, if◌then◌else◌,
}

-- WBPP's image types, as far as the code tells them apart.
pub data ImageType : Type 0 where
  light flat other_type : ImageType

-- `drizzle_file` is none if it is undefined.
pub record Frame : Type 0 where
  pub current : Text
  pub drizzle_file : Option Text

-- A frame group: its active frames, whether its fast integration data are enabled, and the name of its
-- master file, empty if it has none.
pub record Group : Type 0 where
  pub image_type : ImageType
  pub active_frames : List Frame
  pub fast_integration : Bool
  pub master_file : Text

-- An operation; the name of a log block is empty, and an operation may have no group.
pub record Operation : Type 0 where
  pub name : Text
  pub group : Option Group

-- What a gathering loop does at an operation: it is taken, the loop ends, or the loop goes on.
pub data Verdict : Type 0 where
  taken stopped passed : Verdict

unfoldable pub scan : (Operation → Verdict) → List Operation → List Operation
scan verdict [] = []
scan verdict (op ∷ ops) = elim (verdict op) [
  | taken ↦ op ∷ scan verdict ops
  | stopped ↦ []
  | passed ↦ scan verdict ops
]

abbrev pub is_light : ImageType → Bool
is_light light = true
is_light _ = false

abbrev pub is_flat : ImageType → Bool
is_flat flat = true
is_flat _ = false

-- A named operation ends the loop, a log block is skipped.
abbrev pub at_other : Text → Verdict
at_other name = if is_empty name then passed else stopped

-- The body of a gathering loop: an operation of the kind `mine`, which has a group, is taken if it is
-- `fit` and ends the loop if not.
abbrev pub group_verdict : (Group → Bool) → (Group → Bool) → Option Group → Text → Verdict
group_verdict mine fit none name = at_other name
group_verdict mine fit (some g) name =
    if mine g then (if fit g then taken else stopped) else at_other name

-- `s.indexOf( p ) == 0`
unfoldable pub has_prefix : Text → Text → Bool
has_prefix [] s = true
has_prefix (c ∷ p) [] = false
has_prefix (c ∷ p) (d ∷ s) = same_text (c ∷ []) (d ∷ []) && has_prefix p s

module _ (exists : Text → Bool) where
  unfoldable pub all_exist : List Frame → Bool
  all_exist [] = true
  all_exist (f ∷ fs) = exists f.current && all_exist fs

  -- At least three active frames, all of them on disk.
  unfoldable pub is_ready : Group → Bool
  unfolding all_exist
  is_ready g = not (ltb (length g.active_frames) 3) && all_exist g.active_frames

  unfoldable pub calib_verdict : Operation → Verdict
  calib_verdict op =
      group_verdict (λ g. same_text op.name (text "Integration") && not (is_light g.image_type))
        is_ready op.group op.name

  unfoldable pub light_verdict : Operation → Verdict
  light_verdict op =
      group_verdict (λ g. same_text op.name (text "Integration") && is_light g.image_type)
        (λ g. not g.fast_integration && is_ready g) op.group op.name

  unfoldable pub drizzle_verdict : Operation → Verdict
  drizzle_verdict op =
      group_verdict (λ g. has_prefix (text "Drizzle Integration") op.name)
        (λ g. not (is_empty g.master_file) && exists g.master_file) op.group op.name

  -- The loops begin at the operation's own index.
  unfoldable pub gather_calib_batch : List Operation → ℕ → List Operation
  unfolding scan calib_verdict is_ready
  gather_calib_batch queue i = scan calib_verdict (drop i queue)

  unfoldable pub gather_light_batch : List Operation → ℕ → List Operation
  unfolding scan light_verdict is_ready
  gather_light_batch queue i = scan light_verdict (drop i queue)

  unfoldable pub gather_drizzle_batch : List Operation → ℕ → List Operation
  unfolding scan drizzle_verdict has_prefix
  gather_drizzle_batch queue i = scan drizzle_verdict (drop i queue)

unfoldable pub ln_ref_verdict : Operation → Verdict
ln_ref_verdict op =
    group_verdict (λ g. same_text op.name (text "LN reference generation")) (λ g. true) op.group
      op.name

unfoldable pub gather_ln_ref_batch : List Operation → ℕ → List Operation
unfolding scan ln_ref_verdict
gather_ln_ref_batch queue i = scan ln_ref_verdict (drop i queue)

-- The flats' loop gathers integrations and calibrations.
pub data FlatVerdict : Type 0 where
  integration calibration boundary skipped : FlatVerdict

abbrev flat_other : Text → FlatVerdict
flat_other name = if is_empty name then skipped else boundary

unfoldable pub flat_verdict : Operation → FlatVerdict
flat_verdict op = elim (op.group) [
  | none ↦ flat_other op.name
  | some g ↦
      if is_light g.image_type
      then flat_other op.name
      else if same_text op.name (text "Integration") && is_flat g.image_type
      then integration
      else if same_text op.name (text "Calibration") && is_flat g.image_type
      then calibration
      else flat_other op.name
]

pub record FlatBatch : Type 0 where
  pub ints : List Operation
  pub cals : List Operation

abbrev add_flat : FlatVerdict → Operation → FlatBatch → FlatBatch
add_flat integration op b = record b { ints = op ∷ b.ints }
add_flat calibration op b = record b { cals = op ∷ b.cals }
add_flat boundary op b = record { ints = []; cals = [] }
add_flat skipped op b = b

unfoldable pub scan_flats : List Operation → FlatBatch
scan_flats [] = record { ints = []; cals = [] }
scan_flats (op ∷ ops) = let rest = scan_flats ops in add_flat (flat_verdict op) op rest

unfoldable pub gather_flat_batch : List Operation → ℕ → FlatBatch
unfolding scan_flats flat_verdict
gather_flat_batch queue i = scan_flats (drop i queue)
