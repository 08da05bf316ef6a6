-- ===== src/Worker/Names.antt =====
-- The file names that pjsr/lib/WorkerRuntime.js accepts: checkJobFileName, checkJobFiles, and the base names
-- that it takes from paths.
use distributed_wbpp.Prelude.{
  ◌≡◌, ◌≢◌, refl, ◌↔◌, inl, inr, Bool, false, ◌||◌, List, [], ◌∷◌, map, Text, text, ok, arith, All,
  is_empty, same_text, same_text_iff, Bool-cases, >>=-eq-ok, if◌then◌else◌,
}
use distributed_wbpp.Worker.{
  is_separator, has_separator, check_job_file_name, check_names, Manifest, names_of,
  check_job_files,
}

-- A plain name: not empty, neither "." nor "..", and with no separator, drive colon or NUL.
pub record IsPlain (s : Text) : Type 0 where
  pub filled : s ≢ []
  pub no_dot : s ≢ text "."
  pub no_parent : s ≢ text ".."
  pub no_separator : All (λ c. is_separator c ≡ false) s

has_separator_iff : (s : Text) → (has_separator s ≡ false) ↔ All (λ c. is_separator c ≡ false) s
unfolding has_separator
has_separator_iff [] = ((λ h. tt), (λ h. refl))
has_separator_iff (c ∷ s) =
    let (to, from) = has_separator_iff s in
    ((λ h. (ground arith, to (ground arith))), (λ (h, t). rw (h, from t) refl))

abbrev bad : Text → Bool
bad s = is_empty s || (same_text s (text ".") || (same_text s (text "..") || has_separator s))

differs : (s t : Text) → (same_text s t ≡ false) ↔ (s ≢ t)
differs s t =
    let (to, from) = same_text_iff s t in
    (
      λ h e. absurd (ground (arith, from e)),
      λ apart. elim (Bool-cases (same_text s t)) [ inl e ↦ absurd (apart (to e)) | inr e ↦ e ],
    )

filled_iff : (s : Text) → (is_empty s ≡ false) ↔ (s ≢ [])
filled_iff [] = ((λ h. absurd (ground arith)), (λ apart. absurd (apart refl)))
filled_iff (c ∷ s) = ((λ h e. cc), (λ h. refl))

bad_iff : (s : Text) → (bad s ≡ false) ↔ IsPlain s
bad_iff s = (
  λ h. record {
    filled = (filled_iff s).0 (ground arith);
    no_dot = (differs s (text ".")).0 (ground arith);
    no_parent = (differs s (text "..")).0 (ground arith);
    no_separator = (has_separator_iff s).0 (ground arith);
  },
  λ p.
      rw
        (
          (filled_iff s).1 p.filled,
          (differs s (text ".")).1 p.no_dot,
          (differs s (text "..")).1 p.no_parent,
          (has_separator_iff s).1 p.no_separator,
        )
        refl,
)

-- A file name is accepted exactly if it is plain, and then as it is.
pub check_job_file_name_iff : (s r : Text) → (check_job_file_name s ≡ ok r) ↔ (IsPlain s × (r ≡ s))
unfolding check_job_file_name
check_job_file_name_iff s r = elim (Bool-cases (bad s)) [
  | inl e ↦
      (λ h. absurd (ground (arith, h, e)), λ (p, same). absurd (ground (arith, (bad_iff s).1 p, e)))
  | inr e ↦ (λ h. ((bad_iff s).0 e, ground (arith, h, e)), λ (p, same). ground (arith, e, same))
]

check_names_iff : (ns : List Text) → (check_names ns ≡ ok tt) ↔ All IsPlain ns
unfolding check_names
check_names_iff [] = ((λ h. tt), (λ h. refl))
check_names_iff (n ∷ ns) =
    let (to, from) = check_names_iff ns in
    (
      (λ h.
          let (a, e, f) = >>=-eq-ok (check_job_file_name n) (λ checked. check_names ns) h in
          (((check_job_file_name_iff n a).0 e).0, to f)),
      (λ (h, t). rw ((check_job_file_name_iff n n).1 (h, refl), from t) refl),
    )

-- The names that a manifest carries: the inputs, the reference where there is one, and the references by
-- field.
abbrev pub reference_names : Text → List Text
reference_names [] = []
reference_names (c ∷ s) = (c ∷ s) ∷ []

reference_lem : (s : Text) → (if is_empty s then [] else s ∷ []) ≡ reference_names s
reference_lem [] = refl
reference_lem (c ∷ s) = refl

-- The check of a manifest passes exactly if every file name that it carries is plain.
pub check_job_files_iff :
    {N : Type 0} (job : Manifest N)
    → (check_job_files job ≡ ok tt) ↔ (
        All IsPlain (names_of job)
        × All IsPlain (reference_names job.reference_name)
        × All IsPlain (map (λ r. r.1) job.file_ref_fields))
unfolding check_job_files
check_job_files_iff job =
    let (to₁, from₁) = check_names_iff (names_of job) in
    let (to₂, from₂) = check_names_iff (reference_names job.reference_name) in
    let (to₃, from₃) = check_names_iff (map (λ r. r.1) job.file_ref_fields) in
    rw (reference_lem job.reference_name) (
      (λ h.
          let (_, e₁, f₁) = >>=-eq-ok (check_names (names_of job)) _ h in
          let (_, e₂, f₂) = >>=-eq-ok (check_names (reference_names job.reference_name)) _ f₁ in
          (to₁ e₁, to₂ e₂, to₃ f₂)),
      (λ (a, b, c). rw (from₁ a, from₂ b, from₃ c) refl),
    )
