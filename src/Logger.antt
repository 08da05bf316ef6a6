-- ===== src/Logger.antt =====
-- pjsr/lib/FileLogger.js: a log that is kept in memory and written to its file with every line.
pub mod Complete
use distributed_wbpp.Prelude.{
  ℕ, ◌+◌, Bool, true, false, Option, none, some, List, [], ◌∷◌, ◌++◌, Text, text, Outcome, ok,
  throw, if◌then◌else◌, ltb,
}
use distributed_wbpp.Calls.{Call, pure, ◌>>=◌, ◌>>◌, attempt}
use distributed_wbpp.Bridge.Pulling.{decimal}

-- A local time; the month counts from 0.
pub record Time : Type 0 where
  pub year : ℕ
  pub month : ℕ
  pub day : ℕ
  pub hours : ℕ
  pub minutes : ℕ
  pub seconds : ℕ
  pub milliseconds : ℕ

-- `__wbpp_pad2`
unfoldable pub pad2 : ℕ → Text
unfolding decimal
pad2 n = (if ltb n 10 then text "0" else []) ++ decimal n

-- `wbppNowHMS`
unfoldable pub hms : Time → Text
unfolding pad2
hms t = pad2 t.hours ++ (text ":" ++ (pad2 t.minutes ++ (text ":" ++ pad2 t.seconds)))

-- `wbppStamp`
unfoldable pub stamp : Time → Text
unfolding pad2
stamp t =
    decimal t.year
    ++ (pad2 (t.month + 1)
        ++ (pad2 t.day
            ++ (text "-"
                ++ (pad2 t.hours
                    ++ (pad2 t.minutes
                        ++ (pad2 t.seconds
                            ++ (text "-"
                                ++ ((if ltb t.milliseconds 100
                                      then (if ltb t.milliseconds 10 then text "00" else text "0")
                                      else [])
                                    ++ decimal t.milliseconds))))))))

-- Directories, files and the clock.
pub record Disk (W : Type 0) : Type 0 where
  pub directory_exists : Text → W → Bool
  pub create_directory : Text → W → Outcome (Unit {0}) × W
  pub write_file : Text → Text → W → Outcome (Unit {0}) × W
  pub now : W → Time

pub record Logger : Type 0 where
  pub ok : Bool
  pub buffer : Text
  pub path : Text

-- `this.buffer += header[ i ] + "\n"`, for each of them
unfoldable pub header_text : List Text → Text
header_text [] = []
header_text (h ∷ hs) = h ++ (10 ∷ header_text hs)

-- What a line adds to the buffer.
unfoldable pub entry_text : Time → Text → Text
unfolding hms
entry_text t msg = hms t ++ (text "  " ++ (msg ++ 10 ∷ []))

module _ {W : Type 0} (D : Disk W) where
  -- The logger with its world.
  pub record State : Type 0 where
    pub logger : Logger
    pub world : W

  unfoldable pub lift : {A : Type 0} → (W → Outcome A × W) → Call State A
  lift m s = let (a, w) = m s.world in (a, record s { world = w })

  unfoldable pub ensure_directory : Text → Call State (Unit {0})
  unfolding lift
  ensure_directory dir s =
      if D.directory_exists dir s.world then (ok tt, s) else lift (D.create_directory dir) s

  -- The path and the header are set, and the header is written.
  unfoldable pub write_header : Text → List Text → Call State (Unit {0})
  unfolding header_text lift
  write_header path header s =
      (do
        lift (D.write_file path (header_text header))
        λ t. (ok tt, record t { logger = record t.logger { ok = true } }))
        (record s { logger = record { ok = false; buffer = header_text header; path = path } })

  -- What the `try` of the constructor does.
  unfoldable pub open_file : Text → Text → List Text → Call State (Unit {0})
  unfolding ensure_directory stamp write_header
  open_file dir prefix header = do
    ensure_directory dir
    λ s.
        write_header
          (dir ++ (text "/" ++ (prefix ++ (text "-" ++ (stamp (D.now s.world) ++ text ".log")))))
          header s

  -- `FileLogger`
  unfoldable pub open_logger : Text → Text → List Text → W → State
  unfolding open_file
  open_logger dir prefix header w =
      (attempt (open_file dir prefix header)
        (λ e s. (ok tt, record s { logger = record s.logger { path = [] } }))
        (record { logger = record { ok = false; buffer = []; path = [] }; world = w })).1

  -- `line`
  unfoldable pub line : Text → State → State
  unfolding entry_text lift
  line msg s =
      let b = s.logger.buffer ++ entry_text (D.now s.world) msg in
      if s.logger.ok
      then (attempt (lift (D.write_file s.logger.path b))
          (λ e t. (ok tt, record t { logger = record t.logger { ok = false } }))
          (record s { logger = record s.logger { buffer = b } })).1
      else s
