-- ===== src/Leases/Finalizing.antt =====
-- The finalizations of pjsr/lib/WBPPShim.js and the count of masters.
use distributed_wbpp.Prelude.{
  ℕ, ◌+◌, ◌≡◌, refl, inl, inr, Option, none, some, List, [], ◌∷◌, Text, ok, if◌then◌else◌,
  Bool-cases,
}
use distributed_wbpp.Calls.{pure, Returns, returned}
use distributed_wbpp.Queue.{Frame}
use distributed_wbpp.Transfer.{Output}
use distributed_wbpp.Masters.{
  split_outputs, last_image, keywords_of, name_master, apply_master_metadata, close_all, copy_one,
  copy_back, mark_stale, is_stale, first_window, or_throw, finalize_master, finalize_light_master,
  finalize_ln_reference, finalize_drizzle_master,
}
use distributed_wbpp.Windows.{Engine, FrameGroup, Keyword, Cap, no_outputs, entry}
use distributed_wbpp.Captures.{WholeJob, Host}
use distributed_wbpp.Leases.Quiet.{
  IsQuiet, CountsOne, IsSilent, quiet_bind, counts_bind, one_bind, IsSilent-bind, quiet,
  quiet_attempt, IsSilent-pure, quiet_raise, quiet_read,
}

-- `work` counts the masters that WBPP has. A native run returns and makes one; a master is registered by
-- `addFile`, `setMasterFileName` or the reference frame that is set; no other call makes any, and the mark of
-- a failed frame returns.
pub record IsRegistering {W : Type 0} (E : Engine W) (P : Host W) (work : W → ℕ) : Type 0 where
  pub native : (op : P.Op) (w : W) → Returns (λ _ v. work v ≡ work w + 1) (P.run_native op w)
  pub add_file : (f : Text) → CountsOne work (P.add_file f)
  pub set_master : (g : FrameGroup) (f : Text) → CountsOne work (E.set_master g f)
  pub set_drizzle_master : (g : FrameGroup) (f : Text) → CountsOne work (E.set_drizzle_master g f)
  pub set_reference : (g : FrameGroup) (f : Text) → CountsOne work (E.set_reference g f)
  pub processing_failed : (f : Frame) → IsSilent work (E.processing_failed f)
  pub capture : (n : ℕ) (op : P.Op) → IsQuiet work (P.capture n op)
  pub serialize : (p : P.Process) → IsQuiet work (P.serialize p)
  pub make_temp_dir : (t : Text) → IsQuiet work (P.make_temp_dir t)
  pub send : (j : WholeJob P.Source) → IsQuiet work (P.send j)
  pub wait : (h : P.Handle) → IsQuiet work (P.wait h)
  pub open_windows : (f : Text) → IsQuiet work (E.open_windows f)
  pub set_keywords : (w : E.Window) (ks : List Keyword) → IsQuiet work (E.set_keywords w ks)
  pub sign : (w : E.Window) → IsQuiet work (E.sign w)
  pub set_property : (w : E.Window) (n v : Text) → IsQuiet work (E.set_property w n v)
  pub write_image : (f : Text) (ws : List (E.Window × Text)) → IsQuiet work (E.write_image f ws)
  pub close : (w : E.Window) → IsQuiet work (E.close w)
  pub remove_file : (f : Text) → IsQuiet work (E.remove_file f)
  pub copy_file : (f g : Text) → IsQuiet work (E.copy_file f g)

module _ {W : Type 0} (E : Engine W) (P : Host W) (work : W → ℕ) (R : IsRegistering E P work) where
  keywords_quiet : (win : E.Window) → IsQuiet work (keywords_of E win)
  unfolding keywords_of
  keywords_quiet win = quiet_read work (E.keywords win)

  name_quiet : (name : Text) → IsQuiet work (name_master E name)
  unfolding name_master
  name_quiet name = quiet_read work _

  metadata_quiet : (g : FrameGroup) (win : E.Window) → IsQuiet work (apply_master_metadata E g win)
  unfolding apply_master_metadata
  metadata_quiet g win = quiet_bind work (R.sign win) (λ _.
      quiet_bind work (R.set_property win _ _)
        (λ _. quiet_bind work (keywords_quiet win) (λ old. R.set_keywords win _)))

  first_window_quiet : (ws : List E.Window) → IsQuiet work (first_window E ws)
  first_window_quiet [] = quiet_raise work _
  first_window_quiet (w ∷ ws) = quiet work (IsSilent-pure work w)

  or_throw_quiet : (m : Text) (o : Option Text) → IsQuiet work (or_throw E m o)
  or_throw_quiet m none = quiet_raise work m
  or_throw_quiet m (some p) = quiet work (IsSilent-pure work p)

  pub finalize_master_quiet :
      (g : FrameGroup) (path : Text) → IsQuiet work (finalize_master E g path)
  unfolding finalize_master
  finalize_master_quiet g path = quiet_bind work (R.open_windows path) (λ wins.
      quiet_bind work (first_window_quiet wins) (λ win. quiet_bind work (keywords_quiet win) (λ old.
        quiet_bind work (R.set_keywords win _) (λ _. quiet_bind work (name_quiet _) (λ file.
          quiet_bind work (R.write_image file _)
            (λ _. quiet_bind work (R.close win) (λ _. quiet work (IsSilent-pure work file))))))))

  ignored : {A : Type 0} (a : A) (e : Text) → IsQuiet work (pure a)
  ignored a e = quiet work (IsSilent-pure work a)

  close_all_quiet : (ws : List E.Window) → IsQuiet work (close_all E ws)
  unfolding close_all
  close_all_quiet [] = quiet work (IsSilent-pure work tt)
  close_all_quiet (w ∷ ws) =
      quiet_bind work (quiet_attempt work (R.close w) (λ e. ignored tt e)) (λ _. close_all_quiet ws)

  replace_quiet :
      (target : Text)
      → IsQuiet work (λ s. if E.file_exists target s then E.remove_file target s else (ok tt, s))
  replace_quiet target w = elim (Bool-cases (E.file_exists target w)) [
    | inl e ↦ rw e (R.remove_file target w)
    | inr e ↦ rw e (returned refl)
  ]

  copy_one_quiet : (target : Option Text) (source : Text) → IsQuiet work (copy_one E target source)
  unfolding copy_one
  copy_one_quiet none source = quiet work (IsSilent-pure work 0)
  copy_one_quiet (some target) source =
      quiet_attempt work
        (quiet_bind work (replace_quiet target) (λ _.
          quiet_bind work (R.copy_file target source) (λ _. quiet work (IsSilent-pure work 1))))
        (λ e. ignored 0 e)

  copy_back_quiet :
      (by_base updated : List (Text × Text)) → IsQuiet work (copy_back E by_base updated)
  unfolding copy_back
  copy_back_quiet by_base [] = quiet work (IsSilent-pure work 0)
  copy_back_quiet by_base ((base, source) ∷ updated) =
      quiet_bind work (copy_one_quiet (entry base by_base) source) (λ n.
        quiet_bind work (copy_back_quiet by_base updated)
          (λ m. quiet work (IsSilent-pure work (n + m))))

  mark_stale-IsSilent :
      (updated : List (Text × Text)) (fs : List Frame) → IsSilent work (mark_stale E updated fs)
  unfolding mark_stale
  mark_stale-IsSilent updated [] = IsSilent-pure work tt
  mark_stale-IsSilent updated (f ∷ fs) = elim (Bool-cases (is_stale E updated f)) [
    | inl e ↦
        rw e (IsSilent-bind work (R.processing_failed f) (λ _. mark_stale-IsSilent updated fs))
    | inr e ↦ rw e (mark_stale-IsSilent updated fs)
  ]

  -- What comes before the registration, and what comes after it.
  marks-IsSilent :
      (g : FrameGroup) (updated : List (Text × Text))
      → IsSilent work
          (if g.is_drizzle_enabled then mark_stale E updated g.active_frames else pure tt)
  marks-IsSilent g updated = elim (Bool-cases g.is_drizzle_enabled) [
    | inl e ↦ rw e (mark_stale-IsSilent updated g.active_frames)
    | inr e ↦ rw e (IsSilent-pure work tt)
  ]

  pub light_master_counts :
      {Source : Type 0} (g : FrameGroup) (vo : List Output) (kept : Cap Source)
      → CountsOne work (finalize_light_master E g vo kept)
  unfolding finalize_light_master
  light_master_counts g vo kept =
      let b = split_outputs E vo no_outputs in
      counts_bind work (or_throw_quiet _ b.path) (λ path.
        counts_bind work (copy_back_quiet kept.xdrz_by_base b.updated) (λ n.
          counts_bind work (R.open_windows path) (λ wins.
            counts_bind work (first_window_quiet wins) (λ win.
              counts_bind work (metadata_quiet g win) (λ _. counts_bind work (name_quiet _) (λ file.
                counts_bind work (R.write_image file _) (λ _.
                  counts_bind work (close_all_quiet wins) (λ _.
                    one_bind work (R.set_master g file) (λ _.
                      IsSilent-bind work (marks-IsSilent g b.updated)
                        (λ _. IsSilent-pure work file))))))))))

  pub ln_reference_counts :
      (g : FrameGroup) (vo : List Output) → CountsOne work (finalize_ln_reference E g vo)
  unfolding finalize_ln_reference
  ln_reference_counts g vo = counts_bind work (or_throw_quiet _ (last_image E vo none)) (λ path.
      counts_bind work (R.open_windows path) (λ wins.
        counts_bind work (first_window_quiet wins) (λ win.
          counts_bind work (metadata_quiet g win) (λ _. counts_bind work (name_quiet _) (λ file.
            counts_bind work (R.write_image file _) (λ _.
              counts_bind work (quiet_attempt work (R.close win) (λ e. ignored tt e))
                (λ _. one_bind work (R.set_reference g file) (λ _. IsSilent-pure work file))))))))

  pub drizzle_master_counts :
      (g : FrameGroup) (vo : List Output) → CountsOne work (finalize_drizzle_master E g vo)
  unfolding finalize_drizzle_master
  drizzle_master_counts g vo = counts_bind work (or_throw_quiet _ (last_image E vo none)) (λ path.
      counts_bind work (R.open_windows path) (λ wins.
        counts_bind work (first_window_quiet wins) (λ win.
          counts_bind work (metadata_quiet g win) (λ _. counts_bind work (name_quiet _) (λ file.
            counts_bind work (R.write_image file _) (λ _.
              counts_bind work (close_all_quiet wins) (λ _.
                one_bind work (R.set_drizzle_master g file) (λ _. IsSilent-pure work file))))))))
