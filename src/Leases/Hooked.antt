-- ===== src/Leases/Hooked.antt =====
-- The captures, jobs and finalizations of the three kinds of whole jobs in pjsr/lib/WBPPShim.js, and the
-- count of masters.
use distributed_wbpp.Prelude.{
  ℕ, Bool, inl, inr, Option, none, some, List, [], map, Text, text, if◌then◌else◌, Bool-cases,
}
use distributed_wbpp.Transfer.{Output}
use distributed_wbpp.Windows.{Engine, Cap}
use distributed_wbpp.Leases.{
  lease_job, wait_outputs, finalize_integration, integration_hooks, ln_ref_hooks, drizzle_hooks,
  is_light_op,
}
use distributed_wbpp.Captures.{
  Host, of_kind, rows_or_throw, capture_ii, capture_ln_ref_ii, capture_drizzle, drizzled_of, kept,
  companions_of, xdrz_of, ln_files, cell, rows_or_none,
}
use distributed_wbpp.Leases.Quiet.{
  IsQuiet, CountsOne, quiet_bind, counts_bind, one_bind, quiet, IsSilent-pure, quiet_raise,
  quiet_read,
}
use distributed_wbpp.Leases.Finalizing.{
  IsRegistering, finalize_master_quiet, light_master_counts, ln_reference_counts,
  drizzle_master_counts,
}
use distributed_wbpp.Dispatch.Steps.{IsCounted}

module _ {W : Type 0} (E : Engine W) (P : Host W) (work : W → ℕ) (R : IsRegistering E P work) where
  of_kind_quiet :
      (missing wrong : Text) (kind : P.Process → Bool) (e : Option Text) (p : Option P.Process)
      → IsQuiet work (of_kind E P missing wrong kind e p)
  of_kind_quiet missing wrong kind (some e) p = quiet_raise work e
  of_kind_quiet missing wrong kind none none = quiet_raise work missing
  of_kind_quiet missing wrong kind none (some p) = elim (Bool-cases (kind p)) [
    | inl e ↦ rw e (quiet work (IsSilent-pure work p))
    | inr e ↦ rw e (quiet_raise work wrong)
  ]

  rows_quiet : (rows : Option (List (List Text))) → IsQuiet work (rows_or_throw E P rows)
  rows_quiet none = quiet_raise work _
  rows_quiet (some rows) = quiet work (IsSilent-pure work rows)

  kept_quiet :
      (p : P.Process) (frames companions : List Text) (by_base : List (Text × Text))
      → IsQuiet work (kept E P p frames companions by_base)
  unfolding kept
  kept_quiet p frames companions by_base =
      quiet_bind work (R.serialize p) (λ source. quiet work (IsSilent-pure work _))

  capture_ii_quiet : (op : P.Op) → IsQuiet work (capture_ii E P op)
  unfolding capture_ii
  capture_ii_quiet op =
      let exists_at : W → Text → Bool = λ w f. E.file_exists f w in
      quiet_bind work (R.capture 0 op) (λ c.
        quiet_bind work (of_kind_quiet _ _ _ c.native_error c.captured) (λ p.
          quiet_bind work (quiet_read work exists_at) (λ exists.
            kept_quiet p (map (λ f. f.current) (P.group_of op).active_frames)
              (companions_of exists (rows_or_none E P (P.images p)))
              (xdrz_of exists E.base_of (rows_or_none E P (P.images p)) []))))

  capture_ln_ref_ii_quiet : (op : P.Op) → IsQuiet work (capture_ln_ref_ii E P op)
  unfolding capture_ln_ref_ii
  capture_ln_ref_ii_quiet op =
      let exists_at : W → Text → Bool = λ w f. E.file_exists f w in
      quiet_bind work (R.capture 1 op) (λ c.
        quiet_bind work (of_kind_quiet _ _ _ c.native_error c.captured) (λ p.
          quiet_bind work (rows_quiet (P.images p)) (λ rows.
            quiet_bind work (quiet_read work exists_at)
              (λ exists. kept_quiet p (map (λ row. cell row 1) rows) (ln_files exists rows) []))))

  capture_drizzle_quiet : (op : P.Op) → IsQuiet work (capture_drizzle E P op)
  unfolding capture_drizzle
  capture_drizzle_quiet op = quiet_bind work (R.capture 0 op) (λ c.
      quiet_bind work (of_kind_quiet _ _ _ c.native_error c.captured) (λ p.
        quiet_bind work (rows_quiet (P.input_data p)) (λ rows.
          quiet_bind work (quiet_read work (λ w. drizzled_of E P w rows))
            (λ d. kept_quiet p d.xdrz d.companions []))))

  lease_job_quiet :
      (tag op : Text) (shared : List Text) (i : ℕ) (kept : Cap P.Source)
      → IsQuiet work (lease_job E P tag op shared i kept)
  unfolding lease_job
  lease_job_quiet tag op shared i kept = quiet_bind work (R.make_temp_dir _) (λ dir. R.send _)

  wait_outputs_quiet : (h : P.Handle) → IsQuiet work (wait_outputs E P h)
  unfolding wait_outputs
  wait_outputs_quiet h = quiet_bind work (R.wait h) (λ outs. quiet_read work _)

  finalize_integration_counts :
      (op : P.Op) (c : Cap P.Source) (vo : List Output)
      → CountsOne work (finalize_integration E P op c vo)
  unfolding finalize_integration
  finalize_integration_counts op c vo = elim (Bool-cases (is_light_op E P op)) [
    | inl e ↦ rw e (
        one_bind work (light_master_counts E P work R (P.group_of op) vo c)
          (λ file. IsSilent-pure work tt))
    | inr e ↦ rw e (
        counts_bind work (finalize_master_quiet E P work R (P.group_of op) _)
          (λ file. R.add_file file))
  ]

  pub integration-IsCounted : IsCounted (integration_hooks E P) work (λ op. 1)
  integration-IsCounted = record {
    native = R.native;
    capture = capture_ii_quiet;
    lease = λ i op c.
        lease_job_quiet (text "integ-")
          (if is_light_op E P op then text "light_integration" else text "integration")
          (if is_light_op E P op then c.companions else []) i c;
    wait = wait_outputs_quiet;
    finalize = finalize_integration_counts;
  }

  pub ln_ref-IsCounted : IsCounted (ln_ref_hooks E P) work (λ op. 1)
  ln_ref-IsCounted = record {
    native = R.native;
    capture = capture_ln_ref_ii_quiet;
    lease = λ i op c. lease_job_quiet (text "lnref-") (text "light_integration") c.companions i c;
    wait = wait_outputs_quiet;
    finalize = λ op c vo.
        one_bind work (ln_reference_counts E P work R (P.group_of op) vo)
          (λ file. IsSilent-pure work tt);
  }

  pub drizzle-IsCounted : IsCounted (drizzle_hooks E P) work (λ op. 1)
  drizzle-IsCounted = record {
    native = R.native;
    capture = capture_drizzle_quiet;
    lease =
        λ i op c. lease_job_quiet (text "drizzle-") (text "drizzle_integration") c.companions i c;
    wait = wait_outputs_quiet;
    finalize = λ op c vo.
        one_bind work (drizzle_master_counts E P work R (P.group_of op) vo)
          (λ file. IsSilent-pure work tt);
  }
