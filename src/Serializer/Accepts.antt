-- ===== src/Serializer/Accepts.antt =====
-- Exactly which descriptions `deserializeProcess` accepts, and what it makes of them.
use distributed_wbpp.Prelude.{
  ◌≡◌, refl, sym, ◌∙◌, ap, ◌≢◌, ◌↔◌, ◌⊎◌, inl, inr, Bool, true, false, not, ◌&&◌, Option, none,
  some, List, [], ◌∷◌, Text, ok, throw_if, throw_if-ok, >>=-eq-ok, arith, All, subst, map, has_text,
  same_text, same_text_iff, is_empty, Bool-cases, text, ◌++◌,
}
use distributed_wbpp.Serializer.{
  Value, Instance, Incoming, Rebuilt, allowlist, set_field, check_param, assign_params,
  deserialize_process,
}
use distributed_wbpp.Serializer.Listing.{parameter_names}
use distributed_wbpp.Serializer.Checks.{shape, Fits, check_param_iff}

not-eq-false : (b : Bool) → not b ≡ false → b ≡ true
not-eq-false b h = ground arith

expected_cases :
    (id expected : Text)
    → ((not (is_empty expected) && not (same_text id expected)) ≡ false)
      ↔ ((expected ≡ []) ⊎ (id ≡ expected))
expected_cases id [] = ground arith
expected_cases id (c ∷ s) = ground (arith, same_text_iff id (c ∷ s))

module _ {N : Type 0} where
  -- All assignments, in order, with no check.
  unfoldable pub assign_all : List (Text × Value N) → Instance N → Instance N
  assign_all [] p = p
  assign_all ((name, v) ∷ rest) p = assign_all rest (set_field name v p)

  -- Every parameter is a name of the process with a value of the default's type.
  abbrev pub Accepted : List Text → (Text → Value N) → List (Text × Value N) → Type 0
  Accepted known defaults = All (λ b. (has_text known b.0 ≡ true) × Fits (defaults b.0) b.1)

  -- The fields still have the shapes that they had in the default instance.
  abbrev SameShapes : (Text → Value N) → Instance N → Type 0
  SameShapes defaults p = (n : Text) → shape (p.fields n) ≡ shape (defaults n)

  set_field-SameShapes :
      (defaults : Text → Value N) (name : Text) (v : Value N) (p : Instance N)
      → SameShapes defaults p
      → Fits (p.fields name) v
      → SameShapes defaults (set_field name v p)
  unfolding set_field
  set_field-SameShapes defaults name v p same fit n = elim (Bool-cases (same_text name n)) [
    | inl e ↦ rw e (fit.0 ∙ same name ∙ ap (λ k. shape (defaults k)) ((same_text_iff name n).0 e))
    | inr e ↦ rw e (same n)
  ]

  assign_params_sound :
      (id : Text) (known : List Text) (defaults : Text → Value N) (params : List (Text × Value N))
      (p q : Instance N)
      → SameShapes defaults p
      → assign_params id known params p ≡ ok q
      → Accepted known defaults params × (assign_all params p ≡ q) × SameShapes defaults q
  unfolding assign_params assign_all
  assign_params_sound id known defaults [] p q same e =
      let done : p ≡ q = cc in (tt, done, subst (SameShapes defaults) done same)
  assign_params_sound id known defaults ((name, v) ∷ rest) p q same e =
      let (_, listed, e₁) = >>=-eq-ok (throw_if (not (has_text known name)) _) _ e in
      let (_, checked, e₂) = >>=-eq-ok (check_param _ (p.fields name) v) _ e₁ in
      let fit = (check_param_iff _ (p.fields name) v).0 checked in
      let (accepted, all_done, shapes) =
        assign_params_sound id known defaults rest (set_field name v p) q
          (set_field-SameShapes defaults name v p same fit) e₂ in
      (
        ((not-eq-false _ (throw_if-ok _ _ listed), (fit.0 ∙ same name, fit.1)), accepted),
        all_done,
        shapes,
      )

  assign_params_complete :
      (id : Text) (known : List Text) (defaults : Text → Value N) (params : List (Text × Value N))
      (p : Instance N)
      → SameShapes defaults p
      → Accepted known defaults params
      → assign_params id known params p ≡ ok (assign_all params p)
  unfolding assign_params assign_all
  assign_params_complete id known defaults [] p same a = refl
  assign_params_complete id known defaults ((name, v) ∷ rest) p same ((listed, fit), a) =
      let fit' : Fits (p.fields name) v = (fit.0 ∙ sym (same name), fit.1) in
      let checked = (check_param_iff (id ++ (text "." ++ name)) (p.fields name) v).1 fit' in
      rw (listed, checked)
        (assign_params_complete id known defaults rest (set_field name v p)
          (set_field-SameShapes defaults name v p same fit') a)

  assign_all-untouched :
      (n : Text) (params : List (Text × Value N)) (p : Instance N)
      → has_text (map (λ b. b.0) params) n ≡ false
      → (assign_all params p).fields n ≡ p.fields n
  unfolding assign_all has_text set_field
  assign_all-untouched n [] p h = refl
  assign_all-untouched n ((name, v) ∷ rest) p h =
      let apart : same_text name n ≡ false = ground arith in
      assign_all-untouched n rest (set_field name v p) (ground arith) ∙ rw apart

  assign_all-SameShapes :
      (defaults : Text → Value N) (params : List (Text × Value N)) (p : Instance N)
      → SameShapes defaults p
      → (known : List Text) → Accepted known defaults params
      → SameShapes defaults (assign_all params p)
  unfolding assign_all
  assign_all-SameShapes defaults [] p same known a = same
  assign_all-SameShapes defaults ((name, v) ∷ rest) p same known ((_, fit), a) =
      assign_all-SameShapes defaults rest (set_field name v p)
        (set_field-SameShapes defaults name v p same (fit.0 ∙ sym (same name), fit.1)) known a

  module _ (create : Text → Instance N) (to_source : Instance N → Text) where
    abbrev pub known_names : Text → List Text
    known_names id = parameter_names (to_source (create id))

    -- What a worker may be sent: an allowed process, the one that is expected if one is, and for each
    -- parameter a name and a value of the default instance's.
    pub record IsAcceptable (d : Incoming N) (expected : Text) : Type 0 where
      pub allowed : has_text allowlist d.id ≡ true
      pub is_expected : (expected ≡ []) ⊎ (d.id ≡ expected)
      pub params : Accepted (known_names d.id) (create d.id).fields d.params

    -- A description is rebuilt exactly if it is acceptable; then the process is the default instance
    -- with the parameters assigned in order, and `known` is the names of its listing. Anything else is
    -- rejected by an error.
    pub deserialize_process_iff :
        (d : Incoming N) (expected : Text) (r : Rebuilt N)
        → (deserialize_process create to_source (some d) expected ≡ ok r) ↔ (
            IsAcceptable d expected
            × (r.process ≡ assign_all d.params (create d.id))
            × (r.known ≡ known_names d.id))
    unfolding deserialize_process
    deserialize_process_iff d expected r = (
      λ e.
          let (_, e₁, f₁) = >>=-eq-ok (throw_if (not (has_text allowlist d.id)) _) _ e in
          let (_, e₂, f₂) =
            >>=-eq-ok (throw_if (not (is_empty expected) && not (same_text d.id expected)) _) _
              f₁ in
          let (p, e₃, f₃) =
            >>=-eq-ok (assign_params d.id (known_names d.id) d.params (create d.id)) _ f₂ in
          let (accepted, assigned, _) =
            assign_params_sound d.id (known_names d.id) (create d.id).fields d.params (create d.id)
              p (λ n. refl) e₃ in
          (
            record {
              allowed = not-eq-false _ (throw_if-ok _ _ e₁);
              is_expected = (expected_cases d.id expected).0 (throw_if-ok _ _ e₂);
              params = accepted;
            },
            ground arith,
            ground arith,
          ),
      λ (a, same, known).
          let second = (expected_cases d.id expected).1 a.is_expected in
          let third =
            assign_params_complete d.id (known_names d.id) (create d.id).fields d.params
              (create d.id) (λ n. refl) a.params in
          rw (a.allowed, second, third) (cc),
    )

    nothing_sent :
        (expected : Text) (r : Rebuilt N)
        → deserialize_process create to_source none expected ≢ ok r
    unfolding deserialize_process
    nothing_sent expected r = ground arith

    -- Whatever a manifest says, what a worker runs is an allowed process, and each of its parameters has
    -- the type of the default instance's; those that the description does not name are untouched.
    pub deserialize_process_safe :
        (sent : Option (Incoming N)) (expected : Text) (r : Rebuilt N)
        → deserialize_process create to_source sent expected ≡ ok r
        → (d : Incoming N) × (sent ≡ some d)
          × (has_text allowlist d.id ≡ true)
          × ((n : Text) → shape (r.process.fields n) ≡ shape ((create d.id).fields n))
          × ((n : Text)
              → has_text (map (λ b. b.0) d.params) n ≡ false
              → r.process.fields n ≡ (create d.id).fields n)
    deserialize_process_safe none expected r e = absurd (nothing_sent expected r e)
    deserialize_process_safe (some d) expected r e =
        let (a, same, known) = (deserialize_process_iff d expected r).0 e in
        (
          d,
          refl,
          a.allowed,
          rw same (
              assign_all-SameShapes (create d.id).fields d.params (create d.id) (λ n. refl)
                (known_names d.id) a.params),
          λ n h. rw same (assign_all-untouched n d.params (create d.id) h),
        )
