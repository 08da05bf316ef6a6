-- ===== src/Worker/Safe.antt =====
-- What a worker runs: the set up of processJob in pjsr/lib/WorkerRuntime.js as a whole.
use distributed_wbpp.Prelude.{
  Option, none, throw, [], ◌≡◌, refl, sym, inl, inr, true, some, List, ◌∷◌, map, Text, text, ok,
  arith, All, same_text_refl, has_text, listed_self, Option-cases, >>=-eq-ok, subst,
}
use distributed_wbpp.Serializer.{
  Instance, Rebuilt, Value, sized, set_field, process_has_parameter, deserialize_process,
}
use distributed_wbpp.Worker.{
  Manifest, names_of, given_names, no_names, Platform, op_process, check_field, set_refs,
  set_reference, set_directory, set_output_names, rebuild_job_process, set_up, target_rows,
  targets_field_of, dir_field_of, path_index_of,
}
use distributed_wbpp.Worker.SetUp.{
  Untouched, Untouched-trans, set_field_lem, try_set_lem, check_field_lem, set_refs_lem,
  set_reference_lem, set_directory_lem,
}

module _ {N : Type 0} (X : Platform N) where
  -- The fields that a worker may write.
  abbrev pub rewritten : Manifest N → List Text
  rewritten job =
      targets_field_of job
      ∷ dir_field_of job
      ∷ text "referenceImage"
      ∷ text "referenceIsFile"
      ∷ text "outputPrefix"
      ∷ text "outputPostfix"
      ∷ text "outputExtension"
      ∷ text "overwriteExistingFiles"
      ∷ map (λ f. f.0) job.file_ref_fields

  record AllListed (job : Manifest N) : Type 0 where
    targets : has_text (rewritten job) (targets_field_of job) ≡ true
    dir : has_text (rewritten job) (dir_field_of job) ≡ true
    ref : has_text (rewritten job) (text "referenceImage") ≡ true
    is_file : has_text (rewritten job) (text "referenceIsFile") ≡ true
    prefix : has_text (rewritten job) (text "outputPrefix") ≡ true
    postfix : has_text (rewritten job) (text "outputPostfix") ≡ true
    ext : has_text (rewritten job) (text "outputExtension") ≡ true
    overwrite : has_text (rewritten job) (text "overwriteExistingFiles") ≡ true
    refs : All (λ n. has_text (rewritten job) n ≡ true) (map (λ f. f.0) job.file_ref_fields)

  all_listed : (job : Manifest N) → AllListed job
  all_listed job =
      let h = listed_self (rewritten job) in
      record {
        targets = h.0;
        dir = h.1.0;
        ref = h.1.1.0;
        is_file = h.1.1.1.0;
        prefix = h.1.1.1.1.0;
        postfix = h.1.1.1.1.1.0;
        ext = h.1.1.1.1.1.1.0;
        overwrite = h.1.1.1.1.1.1.1.0;
        refs = h.1.1.1.1.1.1.1.1;
      }

  set_output_names_lem :
      (job : Manifest N) (p : Instance N) → Untouched (rewritten job) p (set_output_names X job p)
  unfolding set_output_names
  set_output_names_lem job p =
      let l = all_listed job in
      let names = rewritten job in
      Untouched-trans names p _ _ (try_set_lem names X _ _ p l.prefix) (
        Untouched-trans names _ _ _ (try_set_lem names X _ _ _ l.postfix) (
          Untouched-trans names _ _ _ (try_set_lem names X _ _ _ l.ext)
            (try_set_lem names X _ _ _ l.overwrite)))

  rebuild_lem :
      (job : Manifest N) (r : Rebuilt N)
      → rebuild_job_process X job ≡ ok r
      → (id : Text) × (op_process job.op ≡ some id)
        × (deserialize_process X.create X.to_source job.process id ≡ ok r)
  unfolding rebuild_job_process
  rebuild_lem job r h = elim (Option-cases (op_process job.op)) [
    | inl e ↦ absurd (ground (arith, h, e))
    | inr (id, e) ↦ (id, e, ground (arith, h, e))
  ]

  given_names_lem :
      (job : Manifest N) (ns : List Text) → given_names job ≡ ok ns → ns ≡ names_of job
  unfolding given_names
  given_names_lem job ns h = go job.input_names h
    where
      go :
          (o : Option (List Text))
          → elim o [ none ↦ throw no_names | some names ↦ ok names ] ≡ ok ns
          → ns ≡ elim o [ none ↦ [] | some names ↦ names ]
      go none k = absurd cc
      go (some names) k = cc

  -- A process that is set up is the one that the job's operation runs, rebuilt from the job's description,
  -- with a targets field that it has, filled with this job's inputs in the data directory; but for the
  -- targets, the directory, the output names and the references, its fields are those of the description.
  pub set_up_safe :
      (data_dir : Text) (job : Manifest N) (p : Instance N)
      → set_up X data_dir job ≡ ok p
      → (id : Text) × (r : Rebuilt N) × (op_process job.op ≡ some id)
        × (deserialize_process X.create X.to_source job.process id ≡ ok r)
        × (process_has_parameter r (some (targets_field_of job)) ≡ true)
        × (p.fields (targets_field_of job)
            ≡ sized (target_rows data_dir (path_index_of job) (names_of job)))
        × Untouched (rewritten job) r.process p
  unfolding set_up set_field
  set_up_safe data_dir job p h =
      let names = rewritten job in
      let l = all_listed job in
      let (r, rebuilt, h₁) = >>=-eq-ok (rebuild_job_process X job) _ h in
      let (a, ea, h₂) = >>=-eq-ok (set_refs r data_dir job.file_ref_fields r.process) _ h₁ in
      let (b, eb, h₃) = >>=-eq-ok (set_reference r data_dir job a) _ h₂ in
      let (c, ec, h₄) = >>=-eq-ok (set_directory r data_dir job b) _ h₃ in
      let (f, ef, h₅) = >>=-eq-ok (check_field r (targets_field_of job)) _ h₄ in
      let (known, same) = check_field_lem names r (targets_field_of job) f ef in
      let (id, op, described) = rebuild_lem job r rebuilt in
      let (ns, en, h₆) = >>=-eq-ok (given_names job) _ h₅ in
      let listed : ns ≡ names_of job = given_names_lem job ns en in
      let rows : Value N = sized (target_rows data_dir (path_index_of job) (names_of job)) in
      let out : p ≡ set_field (targets_field_of job) rows (set_output_names X job c) = cc in
      (
        id,
        r,
        op,
        described,
        known,
        rw out (rw (same_text_refl (targets_field_of job)) refl),
        subst (λ x. Untouched names r.process x) (sym out)
            (Untouched-trans names r.process a _
              (set_refs_lem names r data_dir job.file_ref_fields r.process a l.refs ea)
              (Untouched-trans names a b _
                (set_reference_lem names r data_dir job a b l.ref l.is_file eb)
                (Untouched-trans names b c _ (set_directory_lem names r data_dir job b c l.dir ec) (
                  Untouched-trans names c _ _ (set_output_names_lem job c)
                    (set_field_lem names _ _ _ l.targets))))),
      )
