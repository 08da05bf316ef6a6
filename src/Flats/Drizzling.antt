-- ===== src/Flats/Drizzling.antt =====
-- The drizzle batch of pjsr/lib/WBPPShim.js, whose drizzle files are made canonical first.
use distributed_wbpp.Prelude.{
  ℕ, ◌+◌, ◌≡◌, ◌≢◌, refl, ◌∙◌, not, ◌&&◌, inl, inr, Option, none, some, List, [], ◌∷◌, Text,
  is_empty, Bool-cases, subst,
}
use distributed_wbpp.Calls.{Returns, attempt-Ends}
use distributed_wbpp.Queue.{Frame}
use distributed_wbpp.Dispatch.{Hooks, State, distribute_batch}
use distributed_wbpp.Dispatch.Steps.{IsCounted}
use distributed_wbpp.Dispatch.Wrapped.{share, distribute_batch_weight}
use distributed_wbpp.Flats.{
  Drizzles, normalize_file, normalize_frames, normalize_xdrz_paths, normalize_batch,
  distribute_drizzle_batch, wrapped_drizzle_run,
}

-- The rewrite of a drizzle file and the note that a group is done count nothing.
pub record IsTextual {Op W : Type 0} (D : Drizzles Op W) (work : W → ℕ) : Type 0 where
  pub canonicalize : (f : Text) (w : W) → work (D.canonicalize f w) ≡ work w
  pub set_normalized : (op : Op) (w : W) → work (D.set_normalized op w) ≡ work w

module _ {Op W : Type 0} (D : Drizzles Op W) (work : W → ℕ) (T : IsTextual D work) where
  normalize_file_same : (dz : Option Text) (w : W) → work (normalize_file D dz w) ≡ work w
  normalize_file_same none w = refl
  normalize_file_same (some dz) w = elim (Bool-cases (not (is_empty dz) && D.file_exists dz w)) [
    | inl e ↦ rw e (T.canonicalize dz w)
    | inr e ↦ rw e refl
  ]

  normalize_frames_same : (fs : List Frame) (w : W) → work (normalize_frames D fs w) ≡ work w
  unfolding normalize_frames
  normalize_frames_same [] w = refl
  normalize_frames_same (f ∷ fs) w =
      normalize_frames_same fs (normalize_file D f.drizzle_file w)
      ∙ normalize_file_same f.drizzle_file w

  normalize_xdrz_paths_same : (op : Op) (w : W) → work (normalize_xdrz_paths D op w) ≡ work w
  unfolding normalize_xdrz_paths
  normalize_xdrz_paths_same op w = elim (Bool-cases (D.is_normalized op w)) [
    | inl e ↦ rw e refl
    | inr e ↦
        rw e (
          normalize_frames_same (D.active_frames op) (D.set_normalized op w)
          ∙ T.set_normalized op w)
  ]

  normalize_batch_same : (batch : List Op) (w : W) → work (normalize_batch D batch w) ≡ work w
  unfolding normalize_batch
  normalize_batch_same [] w = refl
  normalize_batch_same (op ∷ ops) w =
      normalize_batch_same ops (normalize_xdrz_paths D op w) ∙ normalize_xdrz_paths_same op w

  module _ (H : Hooks Op W) (weight : Op → ℕ) (C : IsCounted H work weight) where
    -- One count of what the wrapped run of a drizzle integration does.
    pub wrapped_drizzle_run-weight :
        (batch : List Op) (n_workers : ℕ) (first : Op) (s : State H)
        → ((i : ℕ) → s.marks i ≡ none)
        → Returns
            (λ st t.
              (st ≢ none) × (work t.world ≡ work s.world + share weight batch n_workers first))
            (wrapped_drizzle_run D H batch n_workers first s)
    unfolding wrapped_drizzle_run distribute_drizzle_batch
    wrapped_drizzle_run-weight batch n first s fresh =
        let ready : State H = record s { world = normalize_batch D batch s.world } in
        let done = distribute_batch_weight H work weight C batch n first ready fresh in
        rw (fresh 0, wrapped_drizzle_run)
          (attempt-Ends {E = λ _. ⊥} _
            (subst
              (λ m.
                Returns (λ st t. (st ≢ none) × (work t.world ≡ m + share weight batch n first))
                  (distribute_batch H batch n first ready))
              (normalize_batch_same batch s.world) done)
            (λ e t h. absurd h))
