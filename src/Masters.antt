-- ===== src/Masters.antt =====
-- The masters that the cluster integrated, in pjsr/lib/WBPPShim.js: finalizeMaster, finalizeLightMaster,
-- finalizeLNReference, finalizeDrizzleMaster and __applyMasterMetadata. `W` is the state of WBPP, of
-- PixInsight and of the files.
pub mod Keywords
pub mod Drizzle
pub mod CopyBack
use distributed_wbpp.Prelude.{
  ℕ, zero, suc, ◌+◌, Bool, true, false, not, ◌&&◌, ◌||◌, Option, none, some, List, [], ◌∷◌, ◌++◌,
  map, Text, text, Outcome, ok, throw, keep, leb, ltb, length, if◌then◌else◌, same_text, has_text,
  is_empty,
}
use distributed_wbpp.Windows.{
  Keyword, FrameGroup, Cap, entry, put_entry, lower, ends_in, Engine, unique_names, keyword,
  group_keywords, is_unique, merge_keywords, comments, Bundle, no_outputs,
}
use distributed_wbpp.Calls.{Call, pure, raise, ◌>>=◌, ◌>>◌, attempt}
use distributed_wbpp.Queue.{ImageType, Frame}
use distributed_wbpp.Transfer.{Output}

module _ {W : Type 0} (E : Engine W) where
  open E use {Window}

  abbrev pub master_dir : Text
  master_dir = E.output_directory ++ text "/master"

  unfoldable pub keywords_of : Window → Call W (List Keyword)
  keywords_of w s = (ok (E.keywords w s), s)

  -- A file of this name, or a new one like it, in the masters' directory.
  unfoldable pub name_master : Text → Call W Text
  name_master name s = (ok (E.unique_name master_dir name s), s)

  -- `wins[ 0 ]`, of which a property is read or set next
  abbrev pub first_window : List Window → Call W Window
  first_window [] = raise (text "Cannot read properties of undefined (reading 'keywords')")
  first_window (w ∷ ws) = pure w

  -- `try { wins[ w ].forceClose(); } catch ( e ) {}`
  unfoldable pub close_all : List Window → Call W (Unit {0})
  close_all [] = pure tt
  close_all (w ∷ ws) = do attempt (E.close w) (λ e. pure tt); close_all ws

  -- finalizeMaster
  unfoldable pub finalize_master : FrameGroup → Text → Call W Text
  unfolding merge_keywords
  finalize_master g path = do
    wins ← E.open_windows path
    w ← first_window wins
    old ← keywords_of w
    E.set_keywords w (merge_keywords (group_keywords g) old)
    file ← name_master (text "master" ++ (g.folder_name ++ text ".xisf"))
    E.write_image file ((w, text "integration") ∷ [])
    E.close w
    pure file

  -- __applyMasterMetadata
  unfoldable pub apply_master_metadata : FrameGroup → Window → Call W (Unit {0})
  unfolding merge_keywords
  apply_master_metadata g w = do
    E.sign w
    E.set_property w (text "Instrument:Filter:Name") g.filter
    old ← keywords_of w
    E.set_keywords w (merge_keywords (comments E.title E.version ++ group_keywords g) old)

  abbrev sort_output : Text → Text → Bundle → Bundle
  sort_output name path b =
      if ends_in (text ".xisf") name
      then record b { path = some path }
      else if ends_in (text ".xdrz") name
      then record b { updated = put_entry name path b.updated }
      else b

  -- The image and the updated drizzle files among the outputs; a later one counts.
  unfoldable pub split_outputs : List Output → Bundle → Bundle
  unfolding put_entry ends_in
  split_outputs [] b = b
  split_outputs (o ∷ os) b = split_outputs os (sort_output (E.base_of o.path) o.path b)

  -- The last output whose path ends in ".xisf".
  unfoldable pub last_image : List Output → Option Text → Option Text
  unfolding ends_in
  last_image [] found = found
  last_image (o ∷ os) found =
      last_image os (if ends_in (text ".xisf") o.path then some o.path else found)

  abbrev pub or_throw : Text → Option Text → Call W Text
  or_throw message none = raise message
  or_throw message (some path) = pure path

  -- The original is removed and copied over; an error is swallowed. The result counts the copies.
  unfoldable pub copy_one : Option Text → Text → Call W ℕ
  copy_one none source = pure 0
  copy_one (some target) source =
      attempt
        (do
          λ s. if E.file_exists target s then E.remove_file target s else (ok tt, s)
          E.copy_file target source
          pure 1)
        (λ e. pure 0)

  unfoldable pub copy_back : List (Text × Text) → List (Text × Text) → Call W ℕ
  unfolding copy_one entry
  copy_back by_base [] = pure 0
  copy_back by_base ((base, source) ∷ updated) = do
    n ← copy_one (entry base by_base) source
    m ← copy_back by_base updated
    pure (n + m)

  abbrev pub second : List Window → Option Window
  second (a ∷ b ∷ rest) = some b
  second (a ∷ []) = none
  second [] = none

  abbrev pub third : List Window → Option Window
  third (a ∷ b ∷ c ∷ rest) = some c
  third (a ∷ b ∷ []) = none
  third (a ∷ []) = none
  third [] = none

  abbrev pub with_id : Text → Option Window → List (Window × Text) → List (Window × Text)
  with_id id none rest = rest
  with_id id (some w) rest = (w, id) ∷ rest

  -- The windows that the light master has, with their ids.
  unfoldable pub light_images : List Window → Window → List (Window × Text)
  light_images wins win =
      (win, text "integration")
      ∷ with_id (text "rejection_low") (second wins) (
          if E.generate_rejection_maps then with_id (text "rejection_high") (third wins) [] else [])

  abbrev is_updated : List (Text × Text) → Option Text → Bool
  is_updated updated none = true
  is_updated updated (some dz) = elim (entry (E.base_of dz) updated) [
    | none ↦ false
    | some p ↦ true
  ]

  -- Whether a frame has a drizzle file that the integration did not update.
  abbrev pub is_stale : List (Text × Text) → Frame → Bool
  is_stale updated f = not (is_updated updated f.drizzle_file)

  -- The drizzle bookkeeping: the frames whose drizzle file was not updated have failed.
  unfoldable pub mark_stale : List (Text × Text) → List Frame → Call W (Unit {0})
  unfolding entry
  mark_stale updated [] = pure tt
  mark_stale updated (f ∷ fs) = do
    if is_stale updated f then E.processing_failed f else pure tt
    mark_stale updated fs

  -- finalizeLightMaster
  unfoldable pub finalize_light_master :
      {Source : Type 0} → FrameGroup → List Output → Cap Source → Call W Text
  unfolding split_outputs copy_back apply_master_metadata light_images close_all mark_stale
  finalize_light_master g vo cap = do
    let b = split_outputs vo no_outputs
    path ← or_throw (text "no master bundle in the outputs") b.path
    n ← copy_back cap.xdrz_by_base b.updated
    wins ← E.open_windows path
    win ← first_window wins
    apply_master_metadata g win
    file ← name_master (text "master" ++ (g.folder_name ++ text ".xisf"))
    E.write_image file (light_images wins win)
    close_all wins
    E.set_master g file
    if g.is_drizzle_enabled then mark_stale b.updated g.active_frames else pure tt
    pure file

  -- finalizeLNReference
  unfoldable pub finalize_ln_reference : FrameGroup → List Output → Call W Text
  unfolding last_image apply_master_metadata
  finalize_ln_reference g vo = do
    path ← or_throw (text "no reference integration in the outputs") (last_image vo none)
    wins ← E.open_windows path
    win ← first_window wins
    apply_master_metadata g win
    file ← name_master (text "LN_Reference_" ++ (g.folder_name ++ text ".xisf"))
    E.write_image file ((win, text "integration") ∷ [])
    attempt (E.close win) (λ e. pure tt)
    E.set_reference g file
    pure file

  -- finalizeDrizzleMaster
  unfoldable pub finalize_drizzle_master : FrameGroup → List Output → Call W Text
  unfolding last_image apply_master_metadata close_all
  finalize_drizzle_master g vo = do
    path ← or_throw (text "no drizzle integration in the outputs") (last_image vo none)
    wins ← E.open_windows path
    win ← first_window wins
    apply_master_metadata g win
    file ← name_master (
        text "master"
        ++ (g.folder_name ++ (text "_drizzle_" ++ (g.drizzle_scale ++ text "x.xisf"))))
    E.write_image file
        ((win, text "drizzle_integration") ∷ with_id (text "drizzle_weights") (second wins) [])
    close_all wins
    E.set_drizzle_master g file
    pure file
