-- ===== src/Windows.antt =====
-- What the finalizations of pjsr/lib/WBPPShim.js work on: the keywords of a master, the frame groups, the
-- image windows and the files.
use distributed_wbpp.Prelude.{
  ℕ, ◌+◌, Bool, not, ◌&&◌, ◌||◌, Option, none, some, List, [], ◌∷◌, ◌++◌, map, Text, text, Outcome,
  keep, leb, if◌then◌else◌, same_text, has_text, is_empty,
}
use distributed_wbpp.Queue.{ImageType, Frame}

pub record Keyword : Type 0 where
  pub name : Text
  pub value : Text
  pub comment : Text

-- A frame group: what its keywords say, formatted, and what WBPP names its masters by.
pub record FrameGroup : Type 0 where
  pub image_type : ImageType
  pub type_value : Text
  pub binning : Text
  pub filter : Text
  pub exposure_time : Text
  pub folder_name : Text
  pub active_frames : List Frame
  pub is_drizzle_enabled : Bool
  pub drizzle_scale : Text

-- What a capture keeps for the finalization; `xdrz_by_base` has the drizzle files by name.
pub record Cap (Source : Type 0) : Type 0 where
  pub source : Source
  pub frames : List Text
  pub companions : List Text
  pub xdrz_by_base : List (Text × Text)

-- `table[ key ]`, and `table[ key ] = value`, which keeps a key's place.
unfoldable pub entry : Text → List (Text × Text) → Option Text
entry key [] = none
entry key ((k, v) ∷ rest) = if same_text k key then some v else entry key rest

unfoldable pub put_entry : Text → Text → List (Text × Text) → List (Text × Text)
put_entry key value [] = (key, value) ∷ []
put_entry key value ((k, v) ∷ rest) =
    let later = put_entry key value rest in
    if same_text k key then (k, value) ∷ rest else (k, v) ∷ later

abbrev pub lower : ℕ → ℕ
lower c = if leb 65 c && leb c 90 then c + 32 else c

-- `/<end>$/i`, for an end in lower case
unfoldable pub ends_in : Text → Text → Bool
ends_in end [] = is_empty end
ends_in end (c ∷ s) = same_text (map lower (c ∷ s)) end || ends_in end s

-- `WBPP`'s engine, its image processor, PixInsight's windows and the files.
pub record Engine (W : Type 0) : Type 1 where
  pub Window : Type 0
  pub output_directory : Text
  pub title : Text
  pub version : Text
  pub generate_rejection_maps : Bool
  -- `ImageWindow.open`, one window or several
  pub open_windows : Text → W → Outcome (List Window) × W
  pub keywords : Window → W → List Keyword
  pub set_keywords : Window → List Keyword → W → Outcome (Unit {0}) × W
  pub sign : Window → W → Outcome (Unit {0}) × W
  pub set_property : Window → Text → Text → W → Outcome (Unit {0}) × W
  pub unique_name : Text → Text → W → Text
  pub write_image : Text → List (Window × Text) → W → Outcome (Unit {0}) × W
  pub close : Window → W → Outcome (Unit {0}) × W
  -- `File.extractNameAndExtension`
  pub base_of : Text → Text
  pub file_exists : Text → W → Bool
  pub remove_file : Text → W → Outcome (Unit {0}) × W
  -- `File.copyFile( target, source )`
  pub copy_file : Text → Text → W → Outcome (Unit {0}) × W
  -- `processingFailed` of a frame, `setMasterFileName`, that with `MasterType.DRIZZLE`, and
  -- `__ln_reference_frame__`
  pub processing_failed : Frame → W → Outcome (Unit {0}) × W
  pub set_master : FrameGroup → Text → W → Outcome (Unit {0}) × W
  pub set_drizzle_master : FrameGroup → Text → W → Outcome (Unit {0}) × W
  pub set_reference : FrameGroup → Text → W → Outcome (Unit {0}) × W

abbrev pub unique_names : List Text
unique_names =
    text "IMAGETYP" ∷ text "XBINNING" ∷ text "YBINNING" ∷ text "FILTER" ∷ text "EXPTIME" ∷ []

abbrev pub keyword : Text → Text → Text → Keyword
keyword n v c = record { name = n; value = v; comment = c }

abbrev pub group_keywords : FrameGroup → List Keyword
group_keywords g =
    keyword (text "IMAGETYP") g.type_value (text "Type of image")
    ∷ keyword (text "XBINNING") g.binning (text "Binning factor, horizontal axis")
    ∷ keyword (text "YBINNING") g.binning (text "Binning factor, vertical axis")
    ∷ keyword (text "FILTER") g.filter (text "Filter used when taking image")
    ∷ keyword (text "EXPTIME") g.exposure_time (text "Exposure time in seconds")
    ∷ []

abbrev pub is_unique : Keyword → Bool
is_unique k = has_text unique_names k.name

-- `kw.concat( w.keywords.filter( … ) )`
unfoldable pub merge_keywords : List Keyword → List Keyword → List Keyword
merge_keywords new old = new ++ keep (λ k. not (is_unique k)) old

abbrev pub comments : Text → Text → List Keyword
comments title version =
    keyword (text "COMMENT") [] (text "PixInsight image preprocessing pipeline")
    ∷ keyword (text "COMMENT") []
        (text "Master frame generated with " ++ (title ++ (text " v" ++ version)))
    ∷ []

-- The image that a finalization opens, its other images, and where its outputs are.
pub record Bundle : Type 0 where
  pub path : Option Text
  pub updated : List (Text × Text)

abbrev pub no_outputs : Bundle
no_outputs = record { path = none; updated = [] }
