-- ===== src/Transfer.antt =====
-- What the distributions of pjsr/lib/WBPPShim.js share: the verified outputs of a report, and the temporary
-- directories that the cluster's outputs come to, which are removed when the session ends.
pub mod Cleanup
use distributed_wbpp.Prelude.{
  ℕ, Bool, true, false, not, ◌&&◌, List, [], ◌∷◌, ◌++◌, Text, text, Outcome, ok, keep,
  if◌then◌else◌, is_empty,
}
use distributed_wbpp.Calls.{Call, pure, ◌>>=◌, ◌>>◌, attempt}
use distributed_wbpp.Bridge.Pulling.{decimal}

-- An output of a report; what it lacks is empty.
pub record Output : Type 0 where
  pub input : Text
  pub path : Text
  pub verified : Bool

-- `__verifiedOutputs`; a report without a list has an empty one.
unfoldable pub verified_outputs : (Text → Bool) → List Output → List Output
verified_outputs exists outs =
    keep (λ o. o.verified && (not (is_empty o.path) && exists o.path)) outs

-- An entry that FileFind finds.
pub record Entry : Type 0 where
  pub name : Text
  pub is_directory : Bool

-- Directories and files, and the clock in milliseconds.
pub record Folders (W : Type 0) : Type 0 where
  pub temp_dir : Text
  pub now : W → ℕ
  pub directory_exists : Text → W → Bool
  pub create_directory : Text → W → Outcome (Unit {0}) × W
  pub entries : Text → W → List Entry
  pub remove_file : Text → W → Outcome (Unit {0}) × W
  pub remove_directory : Text → W → Outcome (Unit {0}) × W

module _ {W : Type 0} (F : Folders W) where
  -- `__wbppTempDirs`, the last one first.
  pub record State : Type 0 where
    pub dirs : List Text
    pub world : W

  unfoldable pub lift : {A : Type 0} → (W → Outcome A × W) → Call State A
  lift m s = let (a, w) = m s.world in (a, record s { world = w })

  unfoldable pub ensure_directory : Text → Call State (Unit {0})
  unfolding lift
  ensure_directory path s =
      if F.directory_exists path s.world then (ok tt, s) else lift (F.create_directory path) s

  -- `__makeTempDir`
  unfoldable pub make_temp_dir : Text → Call State Text
  unfolding ensure_directory
  make_temp_dir tag s =
      let path = F.temp_dir ++ (text "/wbpp-" ++ (tag ++ (text "-" ++ decimal (F.now s.world)))) in
      (do ensure_directory path; λ t. (ok path, record t { dirs = path ∷ t.dirs })) s

  unfoldable pub remove_files : Text → List Entry → Call State (Unit {0})
  unfolding lift
  remove_files dir [] = pure tt
  remove_files dir (e ∷ es) = do
    if e.is_directory then pure tt else lift (F.remove_file (dir ++ (text "/" ++ e.name)))
    remove_files dir es

  unfoldable pub remove_temp_dir : Text → Call State (Unit {0})
  unfolding remove_files lift
  remove_temp_dir dir s =
      attempt (do remove_files dir (F.entries dir s.world); lift (F.remove_directory dir))
        (λ e. pure tt) s

  unfoldable pub remove_dirs : List Text → Call State (Unit {0})
  unfolding remove_temp_dir
  remove_dirs [] = pure tt
  remove_dirs (d ∷ ds) = do remove_temp_dir d; remove_dirs ds

  -- removeClusterTempDirs
  unfoldable pub remove_cluster_temp_dirs : Call State (Unit {0})
  unfolding remove_dirs
  remove_cluster_temp_dirs s = remove_dirs s.dirs (record s { dirs = [] })
