-- ===== src/Captures.antt =====
-- The captures of the whole jobs in pjsr/lib/WBPPShim.js: captureII, captureLNRefII and captureDrizzle.
use distributed_wbpp.Prelude.{
  ℕ, Bool, true, false, not, ◌&&◌, Option, none, some, List, [], ◌∷◌, map, Text, text, Outcome, ok,
  if◌then◌else◌, is_empty, zero, suc,
}
use distributed_wbpp.Calls.{Call, pure, raise, ◌>>=◌}
use distributed_wbpp.Capture.{Captured}
use distributed_wbpp.Transfer.{Output}
use distributed_wbpp.Xdrz.{server_paths}
use distributed_wbpp.Windows.{Engine, FrameGroup, Cap, put_entry}

-- A job that one worker does; its postfix is empty, and `out_ext` is ".xisf".
pub record WholeJob (Source : Type 0) : Type 0 where
  pub inputs : List Text
  pub op : Text
  pub process : Source
  pub shared_files : List Text
  pub out_dir : Text

pub record Host (W : Type 0) : Type 1 where
  pub Op : Type 0
  pub Status : Type 0
  pub Process : Type 0
  pub Source : Type 0
  pub Handle : Type 0
  pub done : Status
  pub group_of : Op → FrameGroup
  -- `op.__origRun.call( op, env, ri )`
  pub run_native : Op → W → Outcome Status × W
  -- `__captureViaContainer` of that run, with so many processes let through
  pub capture : ℕ → Op → W → Outcome (Captured Process) × W
  pub is_integration : Process → Bool
  pub is_drizzle : Process → Bool
  pub images : Process → Option (List (List Text))
  pub input_data : Process → Option (List (List Text))
  -- `serializeProcess`, which Serializer.antt is about
  pub serialize : Process → W → Outcome Source × W
  pub make_temp_dir : Text → W → Outcome Text × W
  -- `bridge.distributeAsync`, and the outputs of `bridge.distributeWait`
  pub send : WholeJob Source → W → Outcome Handle × W
  pub wait : Handle → W → Outcome (List Output) × W
  pub add_file : Text → W → Outcome (Unit {0}) × W
  -- `File.extractName`, the drive with the directory, and `File.changeExtension( f, ".xnml" )`
  pub name_of : Text → Text
  pub dir_of : Text → Text
  pub as_xnml : Text → Text

-- `( row.length > i ) ? String( row[ i ] ) : ""`
abbrev pub cell_or_empty : List Text → ℕ → Text
cell_or_empty [] i = []
cell_or_empty (c ∷ cs) zero = c
cell_or_empty (c ∷ cs) (suc i) = cell_or_empty cs i

-- `String( row[ i ] )`
abbrev pub cell : List Text → ℕ → Text
cell [] i = text "undefined"
cell (c ∷ cs) zero = c
cell (c ∷ cs) (suc i) = cell cs i

-- `f.length > 0 && File.exists( f )`
abbrev pub is_there : (Text → Bool) → Text → Bool
is_there exists f = not (is_empty f) && exists f

abbrev pub add_if : Bool → Text → List Text → List Text
add_if true f fs = f ∷ fs
add_if false f fs = fs

-- The companions of a row of an integration: its drizzle file and its local normalization file.
unfoldable pub companions_of : (Text → Bool) → List (List Text) → List Text
companions_of exists [] = []
companions_of exists (row ∷ rows) =
    let dz = cell_or_empty row 2 in
    let ln = cell_or_empty row 3 in
    add_if (is_there exists dz) dz (add_if (is_there exists ln) ln (companions_of exists rows))

-- `xdrzByBase`
unfoldable pub xdrz_of :
    (Text → Bool) → (Text → Text) → List (List Text) → List (Text × Text) → List (Text × Text)
unfolding put_entry
xdrz_of exists base_of [] found = found
xdrz_of exists base_of (row ∷ rows) found =
    let dz = cell_or_empty row 2 in
    xdrz_of exists base_of rows
      (if is_there exists dz then put_entry (base_of dz) dz found else found)

-- The local normalization files of an LN reference's rows.
unfoldable pub ln_files : (Text → Bool) → List (List Text) → List Text
ln_files exists [] = []
ln_files exists (row ∷ rows) =
    let ln = cell_or_empty row 3 in add_if (is_there exists ln) ln (ln_files exists rows)

-- The drizzle files that a drizzle integration reads, and the files that it needs beside them.
pub record Drizzled : Type 0 where
  pub xdrz : List Text
  pub companions : List Text

module _ {W : Type 0} (E : Engine W) (P : Host W) where
  open P use {Op, Process, Source, Handle}

  abbrev drizzled_row : W → Text → Bool → Drizzled → Drizzled
  drizzled_row w dz uses_ln d =
      let cal = (server_paths (P.dir_of dz) (P.name_of dz)).0 in
      record {
        xdrz = dz ∷ d.xdrz;
        companions =
            add_if (E.file_exists cal w) cal
              (add_if (uses_ln && E.file_exists (P.as_xnml dz) w) (P.as_xnml dz) d.companions);
      }

  -- The rows of a drizzle integration: enabled, drizzle file, local normalization file.
  unfoldable pub drizzled_of : W → List (List Text) → Drizzled
  unfolding server_paths
  drizzled_of w [] = record { xdrz = []; companions = [] }
  drizzled_of w (row ∷ rows) =
      let rest = drizzled_of w rows in
      let dz = cell row 1 in
      if is_there (λ f. E.file_exists f w) dz
      then drizzled_row w dz (not (is_empty (cell_or_empty row 2))) rest
      else rest

  -- What was captured, if it is a process of the kind that is looked for.
  abbrev pub of_kind :
      Text → Text → (Process → Bool) → Option Text → Option Process → Call W Process
  of_kind missing wrong kind (some e) p = raise e
  of_kind missing wrong kind none none = raise missing
  of_kind missing wrong kind none (some p) = if kind p then pure p else raise wrong

  -- A property of undefined is read.
  abbrev pub rows_or_throw : Option (List (List Text)) → Call W (List (List Text))
  rows_or_throw none = raise (text "Cannot read properties of undefined (reading 'length')")
  rows_or_throw (some rows) = pure rows

  abbrev pub rows_or_none : Option (List (List Text)) → List (List Text)
  rows_or_none none = []
  rows_or_none (some rows) = rows

  -- What a capture returns.
  unfoldable pub kept : Process → List Text → List Text → List (Text × Text) → Call W (Cap Source)
  kept p frames companions by_base = do
    source ← P.serialize p
    pure (record {
      source = source;
      frames = frames;
      companions = companions;
      xdrz_by_base = by_base;
    })

  -- captureII
  unfoldable pub capture_ii : Op → Call W (Cap Source)
  unfolding companions_of xdrz_of
  capture_ii op = do
    c ← P.capture 0 op
    p ←
        of_kind (text "II not captured (skipped)") (text "captured a non-II process")
          P.is_integration c.native_error c.captured
    exists ← λ w. (ok (λ (f : Text). E.file_exists f w), w)
    kept p (map (λ f. f.current) (P.group_of op).active_frames)
        (companions_of exists (rows_or_none (P.images p)))
        (xdrz_of exists E.base_of (rows_or_none (P.images p)) [])

  -- captureLNRefII
  unfoldable pub capture_ln_ref_ii : Op → Call W (Cap Source)
  unfolding ln_files
  capture_ln_ref_ii op = do
    c ← P.capture 1 op
    p ←
        of_kind (text "reference II not captured (native path completed)")
          (text "captured a non-II process") P.is_integration c.native_error c.captured
    rows ← rows_or_throw (P.images p)
    exists ← λ w. (ok (λ (f : Text). E.file_exists f w), w)
    kept p (map (λ row. cell row 1) rows) (ln_files exists rows) []

  -- captureDrizzle; the drizzle files are the frames of the job.
  unfoldable pub capture_drizzle : Op → Call W (Cap Source)
  unfolding drizzled_of
  capture_drizzle op = do
    c ← P.capture 0 op
    p ←
        of_kind (text "DI not captured (cached/skipped)") (text "captured a non-DI process")
          P.is_drizzle c.native_error c.captured
    rows ← rows_or_throw (P.input_data p)
    d ← λ w. (ok (drizzled_of w rows), w)
    kept p d.xdrz d.companions []
