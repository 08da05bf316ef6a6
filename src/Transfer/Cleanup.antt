-- ===== src/Transfer/Cleanup.antt =====
-- The end of a session in pjsr/lib/WBPPShim.js: what removeClusterTempDirs leaves.
use distributed_wbpp.Prelude.{
  ◌≡◌, refl, ◌∙◌, arith, Bool, true, false, if◌then◌else◌, inl, inr, List, [], ◌∷◌, ◌++◌, Text,
  text, Outcome, Bool-cases, All, not, keep,
}
use distributed_wbpp.Calls.{Returns, returned, threw, >>=-Ends, attempt-Ends, Ends-map}
use distributed_wbpp.Transfer.{
  Folders, State, lift, Entry, remove_files, remove_temp_dir, remove_dirs, remove_cluster_temp_dirs,
}

-- The files that FileFind finds.
abbrev pub files : List Entry → List Entry
files es = keep (λ e. not e.is_directory) es

-- The first file that FileFind finds in a directory can be removed, and it finds the others then; a
-- directory can be removed when it finds no file there; and no removal brings a directory back. Of the
-- removal of a directory with files in it nothing is taken.
pub record IsRemoving {W : Type 0} (F : Folders W) : Type 0 where
  pub file :
      (dir : Text) (e : Entry) (es : List Entry) (w : W)
      → files (F.entries dir w) ≡ e ∷ es
      → Returns
          (λ _ v.
            (files (F.entries dir v) ≡ es)
            × ((d : Text) → F.directory_exists d w ≡ false → F.directory_exists d v ≡ false))
          (F.remove_file (dir ++ (text "/" ++ e.name)) w)
  pub directory :
      (dir : Text) (w : W)
      → files (F.entries dir w) ≡ []
      → Returns
          (λ _ v.
            (F.directory_exists dir v ≡ false)
            × ((d : Text) → F.directory_exists d w ≡ false → F.directory_exists d v ≡ false))
          (F.remove_directory dir w)

files_of_plain :
    (e : Entry) (es : List Entry) → e.is_directory ≡ false → files (e ∷ es) ≡ e ∷ files es
files_of_plain e es h = go e.is_directory h
  where
    go : (b : Bool) → b ≡ false → (if not b then e ∷ files es else files es) ≡ e ∷ files es
    go true k = absurd (ground arith)
    go false k = refl

module _ {W : Type 0} (F : Folders W) (R : IsRemoving F) where
  abbrev Gone : W → Text → Type 0
  Gone w d = F.directory_exists d w ≡ false

  abbrev Stays : State F → State F → Type 0
  Stays s t = (t.dirs ≡ s.dirs) × ((d : Text) → Gone s.world d → Gone t.world d)

  lift-Returns :
      {A : Type 0} {P : A → W → Type 0} (m : W → Outcome A × W) (s : State F)
      → Returns P (m s.world)
      → Returns (λ a t. (t.dirs ≡ s.dirs) × P a t.world) (lift F m s)
  unfolding lift
  lift-Returns {A} {P} m s h = go (m s.world) h
    where
      go :
          (r : Outcome A × W)
          → Returns P r
          → Returns (λ a t. (t.dirs ≡ s.dirs) × P a t.world) (r.0, record s { world = r.1 })
      go _ (returned k) = returned (refl, k)
      go _ (threw never) = absurd never

  -- What is gone after a later call, and the list of directories, from the beginning.
  later :
      {P : State F → Type 0} {A : Type 0} {r : Outcome A × State F} (s t : State F)
      → Stays s t
      → Returns (λ _ u. P u × Stays t u) r
      → Returns (λ _ u. P u × Stays s u) r
  later s t (same, g) (returned (p, (k, l))) = returned (p, ((cc), λ d h. l d (g d h)))
  later s t g (threw never) = absurd never

  remove_files_lem :
      (dir : Text) (es : List Entry) (s : State F)
      → files (F.entries dir s.world) ≡ files es
      → Returns (λ _ t. (files (F.entries dir t.world) ≡ []) × Stays s t) (remove_files F dir es s)
  unfolding remove_files
  remove_files_lem dir [] s same = returned (same, (refl, λ d h. h))
  remove_files_lem dir (e ∷ es) s same = elim (Bool-cases e.is_directory) [
    | inl nested ↦ rw (nested, remove_files) (remove_files_lem dir es s (rw nested at same))
    | inr plain ↦
        let f = dir ++ (text "/" ++ e.name) in
        rw (plain, remove_files)
          (>>=-Ends _
            (lift-Returns (F.remove_file f) s
              (R.file dir e (files es) s.world (same ∙ files_of_plain e es plain)))
            (λ _ t (kept, (left, g)). later s t (kept, g) (remove_files_lem dir es t left)))
  ]

  remove_temp_dir_lem :
      (dir : Text) (s : State F)
      → Returns (λ _ t. Gone t.world dir × Stays s t) (remove_temp_dir F dir s)
  unfolding remove_temp_dir
  remove_temp_dir_lem dir s =
      attempt-Ends {E = λ _. ⊥} _
        (>>=-Ends _ (remove_files_lem dir (F.entries dir s.world) s refl)
          (λ _ t (empty, g). later s t g (removed t empty)))
        (λ e t never. absurd never)
    where
      removed :
          (t : State F)
          → files (F.entries dir t.world) ≡ []
          → Returns (λ _ u. Gone u.world dir × Stays t u) (lift F (F.remove_directory dir) t)
      removed t empty =
          Ends-map {F = λ _. ⊥} (λ _ u (same, (gone, g)). (gone, (same, g))) (λ u never. never)
            (lift-Returns (F.remove_directory dir) t (R.directory dir t.world empty))

  remove_dirs_lem :
      (ds : List Text) (s : State F)
      → Returns (λ _ t. All (Gone t.world) ds × Stays s t) (remove_dirs F ds s)
  unfolding remove_dirs
  remove_dirs_lem [] s = returned (tt, (refl, λ d h. h))
  remove_dirs_lem (d ∷ ds) s = >>=-Ends _ (remove_temp_dir_lem d s) (λ _ t (gone, g). later s t g (
      Ends-map {F = λ _. ⊥} (λ _ u (all, (same, k)). ((k d gone, all), (same, k)))
        (λ u never. never) (remove_dirs_lem ds t)))

  -- The removal returns, no temporary directory of the session is left and none is kept in the list,
  -- where the files that FileFind finds can be removed, in its order, and a directory can be removed once
  -- it finds no file there. Of the removal of a directory with files in it nothing is taken.
  pub remove_cluster_temp_dirs_lem :
      (s : State F)
      → Returns
          (λ _ t. (t.dirs ≡ []) × All (λ d. F.directory_exists d t.world ≡ false) s.dirs)
          (remove_cluster_temp_dirs F s)
  unfolding remove_cluster_temp_dirs
  remove_cluster_temp_dirs_lem s =
      Ends-map {F = λ _. ⊥} (λ _ t (gone, (same, _)). (same, gone)) (λ t never. never)
        (remove_dirs_lem s.dirs (record s { dirs = [] }))
