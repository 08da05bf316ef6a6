-- ===== src/Worker/SetUp.antt =====
-- The set up of a job's process in processJob of pjsr/lib/WorkerRuntime.js.
use distributed_wbpp.Prelude.{
  ◌≡◌, refl, sym, ◌∙◌, inl, inr, Bool, true, false, not, ◌&&◌, some, List, [], ◌∷◌, map, Text, text,
  ok, ◌>>=◌, arith, All, is_empty, same_text, same_text_iff, has_text, Bool-cases, >>=-eq-ok,
  if◌then◌else◌, subst,
}
use distributed_wbpp.Serializer.{Value, Instance, Rebuilt, set_field, process_has_parameter}
use distributed_wbpp.Worker.{
  Manifest, Platform, check_field, set_checked, set_refs, set_reference, set_directory, try_set,
  dir_field_of, in_dir, text_value, true_value,
}

listed_apart :
    (names : List Text) (n f : Text)
    → has_text names n ≡ true
    → has_text names f ≡ false
    → same_text n f ≡ false
listed_apart names n f h k = elim (Bool-cases (same_text n f)) [
  | inl e ↦
      absurd (ground (arith, subst (λ x. has_text names x ≡ true) ((same_text_iff n f).0 e) h, k))
  | inr e ↦ e
]

module _ {N : Type 0} (names : List Text) where
  -- Only the named fields, at most, differ, and the id does not.
  abbrev pub Untouched : Instance N → Instance N → Type 0
  Untouched p q = (q.id ≡ p.id) × ((f : Text) → has_text names f ≡ false → q.fields f ≡ p.fields f)

  pub Untouched-trans : (p q r : Instance N) → Untouched p q → Untouched q r → Untouched p r
  Untouched-trans p q r (i, h) (j, k) = (j ∙ i, λ f a. k f a ∙ h f a)

  pub set_field_lem :
      (n : Text) (v : Value N) (p : Instance N)
      → has_text names n ≡ true
      → Untouched p (set_field n v p)
  unfolding set_field
  set_field_lem n v p h = (refl, λ f a. rw (listed_apart names n f h a) refl)

  pub try_set_lem :
      (X : Platform N) (n : Text) (v : Value N) (p : Instance N)
      → has_text names n ≡ true
      → Untouched p (try_set X n v p)
  unfolding try_set
  try_set_lem X n v p h = elim (Bool-cases (X.accepts p.id n)) [
    | inl e ↦ rw e (set_field_lem n v p h)
    | inr e ↦ rw e (refl, λ f a. refl)
  ]

  pub check_field_lem :
      (r : Rebuilt N) (f g : Text)
      → check_field r f ≡ ok g
      → (process_has_parameter r (some f) ≡ true) × (g ≡ f)
  unfolding check_field
  check_field_lem r f g h = elim (Bool-cases (process_has_parameter r (some f))) [
    | inl e ↦ (e, ground (arith, h, e))
    | inr e ↦ absurd (ground (arith, h, e))
  ]

  set_checked_lem :
      (r : Rebuilt N) (n : Text) (v : Value N) (p q : Instance N)
      → has_text names n ≡ true
      → set_checked r n v p ≡ ok q
      → Untouched p q
  unfolding set_checked
  set_checked_lem r n v p q h e =
      let (g, c, k) = >>=-eq-ok (check_field r n) _ e in
      let (_, same) = check_field_lem r n g c in
      let out : q ≡ set_field n v p = cc in
      subst (λ x. Untouched p x) (sym out) (set_field_lem n v p h)

  pub set_refs_lem :
      (r : Rebuilt N) (dir : Text) (refs : List (Text × Text)) (p q : Instance N)
      → All (λ n. has_text names n ≡ true) (map (λ f. f.0) refs)
      → set_refs r dir refs p ≡ ok q
      → Untouched p q
  unfolding set_refs
  set_refs_lem r dir [] p q h e =
      let out : q ≡ p = cc in subst (λ x. Untouched p x) (sym out) (refl, λ f a. refl)
  set_refs_lem r dir ((f, name) ∷ refs) p q (h, t) e =
      let (m, c, k) = >>=-eq-ok (set_checked r f _ p) _ e in
      Untouched-trans p m q (set_checked_lem r f _ p m h c) (set_refs_lem r dir refs m q t k)

  pub set_reference_lem :
      (r : Rebuilt N) (dir : Text) (job : Manifest N) (p q : Instance N)
      → has_text names (text "referenceImage") ≡ true
      → has_text names (text "referenceIsFile") ≡ true
      → set_reference r dir job p ≡ ok q
      → Untouched p q
  unfolding set_reference
  set_reference_lem r dir job p q h k = go (
      not (is_empty job.reference_name)
      && not (has_text (map (λ f. f.0) job.file_ref_fields) (text "referenceImage")))
    where
      go :
          (b : Bool)
          → (if b
              then (set_checked r
                    (text "referenceImage")
                    (text_value (in_dir dir job.reference_name))
                    p
                  >>= set_checked r (text "referenceIsFile") true_value)
              else ok p)
            ≡ ok q
          → Untouched p q
      go true e =
          let (m, c, d) = >>=-eq-ok (set_checked r (text "referenceImage") _ p) _ e in
          Untouched-trans p m q (set_checked_lem r _ _ p m h c) (set_checked_lem r _ _ m q k d)
      go false e = let out : q ≡ p = cc in subst (λ x. Untouched p x) (sym out) (refl, λ f a. refl)

  pub set_directory_lem :
      (r : Rebuilt N) (dir : Text) (job : Manifest N) (p q : Instance N)
      → has_text names (dir_field_of job) ≡ true
      → set_directory r dir job p ≡ ok q
      → Untouched p q
  unfolding set_directory
  set_directory_lem r dir job p q h =
      go (process_has_parameter r (some (dir_field_of job))) (not (is_empty job.dir_field))
    where
      same : q ≡ p → Untouched p q
      same out = subst (λ x. Untouched p x) (sym out) (refl, λ f a. refl)

      go :
          (a b : Bool)
          → (if a
              then ok (set_field (dir_field_of job) (text_value dir) p)
              else if b
              then (check_field r (dir_field_of job) >>= λ f. ok p)
              else ok p)
            ≡ ok q
          → Untouched p q
      go true b e =
          let out : q ≡ set_field (dir_field_of job) (text_value dir) p = cc in
          subst (λ x. Untouched p x) (sym out) (set_field_lem _ _ p h)
      go false true e = let (m, c, d) = >>=-eq-ok (check_field r (dir_field_of job)) _ e in same cc
      go false false e = same cc
