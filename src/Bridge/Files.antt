-- ===== src/Bridge/Files.antt =====
-- The responses that pjsr/lib/SidecarBridge.js reads from files, and what is left of these files.
use distributed_wbpp.Prelude.{
  ◌≡◌, refl, ◌↔◌, inl, inr, true, false, Option, none, some, Text, ok, arith, is_empty, Bool-cases,
  Outcome-cases, ap, subst,
}
use distributed_wbpp.Bridge.{
  System, remove, read_json, consume_json, Handle, Report, judged, distribute_wait,
}

module _ {W : Type 0} (Y : System W) where
  pub read_json_iff :
      {J : Type 0} (parse : Text → Option J) (path : Text) (w : W) (j : J)
      → (read_json Y parse path w ≡ some j) ↔ (
          (t : Text) × (Y.file_exists path w ≡ true)
          × (Y.read_file path w ≡ ok t)
          × (parse t ≡ some j))
  unfolding read_json
  read_json_iff parse path w j = elim (Bool-cases (Y.file_exists path w)) [
    | inr e ↦ rw (e, read_json) ((λ h. cc), (λ (t, h, _, _). absurd (ground (arith, h))))
    | inl e ↦ elim (Outcome-cases (Y.read_file path w)) [
      | inr (m, r) ↦ rw (e, r, read_json) ((λ h. cc), (λ (t, _, h, _). cc))
      | inl (t, r) ↦ rw (e, r, read_json) ((λ h. (t, refl, refl, h)), (λ (u, _, same, h). cc))
    ]
  ]

  judged_iff :
      {R : Type 0} (file : Text) (o : Option (Report Y R)) (r : Report Y R)
      → (judged Y file o ≡ ok r) ↔ ((o ≡ some r) × (is_empty r.error ≡ true))
  judged_iff file none r = ((λ h. cc), (λ (h, _). cc))
  judged_iff file (some q) r = elim (Bool-cases (is_empty q.error)) [
    | inl e ↦ rw e (
      (λ h. let same : q ≡ r = cc in (ap some same, subst (λ z. is_empty z.error ≡ true) same e)),
      (λ (h, _). cc),
    )
    | inr e ↦ rw e (
      (λ h. cc),
      (λ (h, k).
          let same : q ≡ r = cc in
          let clash : is_empty r.error ≡ false = subst (λ z. is_empty z.error ≡ false) same e in
          absurd (ground (arith, clash, k))),
    )
  ]

  -- A wait gives a report exactly if the process has left the report file, it can be read and parsed, and
  -- it has no error.
  pub distribute_wait_iff :
      {R : Type 0} (parse : Text → Option (Report Y R)) (h : Handle Y) (w : W) (r : Report Y R)
      → ((distribute_wait Y parse h w).0 ≡ ok r) ↔ (
          (t : Text) × (Y.file_exists h.report_file (remove Y h.job_file (Y.finish h.process w))
            ≡ true)
          × (Y.read_file h.report_file (remove Y h.job_file (Y.finish h.process w)) ≡ ok t)
          × (parse t ≡ some r)
          × (is_empty r.error ≡ true))
  unfolding distribute_wait consume_json
  distribute_wait_iff parse h w r =
      let u = remove Y h.job_file (Y.finish h.process w) in
      let (to, from) = read_json_iff parse h.report_file u r in
      let (into, back) = judged_iff h.report_file (read_json Y parse h.report_file u) r in
      (
        (λ e. let (found, clean) = into e in let (t, a, b, c) = to found in (t, a, b, c, clean)),
        (λ (t, a, b, c, clean). back (from (t, a, b, c), clean)),
      )
