-- ===== src/Worker/Measuring.antt =====
-- measureFrames of pjsr/lib/WorkerRuntime.js, and PixInsight as a worker uses it. `W` is the state of
-- PixInsight and of the worker's files.
use distributed_wbpp.Prelude.{
  Bool, Option, none, some, List, [], ◌∷◌, ◌++◌, map, Text, text, Outcome, same_text, if◌then◌else◌,
}
use distributed_wbpp.Calls.{Call, pure, raise, ◌>>=◌, ◌>>◌, attempt}
use distributed_wbpp.Serializer.{Instance}
use distributed_wbpp.Worker.{Manifest, given_names, Platform, Output, in_dir}

-- PixInsight as a worker uses it. `main`, `low` and `high` are the windows that an integration left, where
-- they are there, and `measure` is a measurement of these paths: its rows by base name, if it succeeded.
pub record Machine (N W : Type 0) : Type 1 where
  pub platform : Platform N
  pub Window : Type 0
  pub Row : Type 0
  pub Stamp : Type 0
  pub data_dir : Text
  -- `P.executeGlobal()`
  pub execute : Instance N → W → Outcome Bool × W
  pub measure : List Text → W → Outcome (Option (List (Text × Row))) × W
  pub file_exists : Text → W → Bool
  pub read_file : Text → W → Outcome Text
  pub write_file : Text → Text → W → Outcome (Unit {0}) × W
  pub main : W → Option Window
  pub low : W → Option Window
  pub high : W → Option Window
  pub write_image : Text → List (Window × Text) → W → Outcome (Unit {0}) × W
  pub save_as : Window → Text → W → Outcome (Unit {0}) × W
  pub close : Window → W → Outcome (Unit {0}) × W
  pub modified : Text → W → Stamp
  pub same_stamp : Stamp → Stamp → Bool
  -- `JSON.stringify` of a row or null, `Error.message` as it is, and `File.extractNameAndExtension`
  pub row_text : Option Row → Text
  pub base_of : Text → Text

abbrev pub row_of : {R : Type 0} → List (Text × R) → Text → Option R
row_of [] b = none
row_of ((n, r) ∷ rows) b = elim (row_of rows b) [
  | some later ↦ some later
  | none ↦ if same_text n b then some r else none
]

module _ {N W : Type 0} (M : Machine N W) where
  open M use {platform, Window, Stamp, data_dir}

  abbrev pub here : Text → Text
  here name = in_dir data_dir name

  abbrev pub stem_of : Text → Text
  stem_of name = here (platform.name_of name)

  -- `try { m } catch ( e ) {}`
  abbrev pub quietly : Call W (Unit {0}) → Call W (Unit {0})
  quietly m = attempt m (λ e. pure tt)

  abbrev pub quietly_close : Option Window → Call W (Unit {0})
  quietly_close none = pure tt
  quietly_close (some w) = quietly (M.close w)

  -- The loop of measureFrames that writes a file for each frame.
  unfoldable pub write_rows : List (Text × M.Row) → List Text → Call W (List Output)
  write_rows rows [] = pure []
  write_rows rows (b ∷ bs) = do
    let name = platform.name_of b ++ text ".ssm.json"
    M.write_file (here name) (M.row_text (row_of rows b))
    others ← write_rows rows bs
    pure (record { input = b; output = name } ∷ others)

  unfoldable pub measure_frames : Manifest N → Call W (List Output)
  unfolding write_rows given_names
  measure_frames job = do
    names ← (λ w. (given_names job, w))
    rows ← M.measure (map here names)
    elim rows [
      | none ↦ raise (text "SubframeSelector measure failed")
      | some found ↦ write_rows found names
    ]
