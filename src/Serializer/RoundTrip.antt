-- ===== src/Serializer/RoundTrip.antt =====
-- A process that the server serializes is rebuilt by the worker with the same parameters. In between
-- lies JSON: `json n` is what a number reads back as, and is `none` where it is written as null (NaN
-- and the infinities).
use distributed_wbpp.Prelude.{
  ◌≡◌, refl, sym, ◌∙◌, ap, ◌≢◌, inr, true, Option, none, some, List, [], ◌∷◌, Text, ◌⊎◌, ok, arith,
  All, has_text, same_text, same_text_iff, listed_self, at_listed, Bool-cases, Option-cases, inl,
}
use distributed_wbpp.Serializer.{
  Scalar, num, bool, str, Value, absent, scalar, sized, object, Elems, nil, cons, Plain, one, table,
  Instance, Description, Incoming, Rebuilt, allowlist, plain_cells, plain_row, plain_rows,
  plain_value, set_field, plain_params, serialize_process, deserialize_process,
}
use distributed_wbpp.Serializer.Listing.{parameter_names}
use distributed_wbpp.Serializer.Checks.{shape, Fits}
use distributed_wbpp.Serializer.Accepts.{
  assign_all, Accepted, IsAcceptable, known_names, deserialize_process_iff,
}

some-ne-none : {A : Type 0} (x : A) → ◌≢◌ {A = Option A} (some x) none
some-ne-none x = ground arith

module _ {N : Type 0} (json : N → Option N) where
  abbrev wire_num : Option N → Value N
  wire_num none = absent
  wire_num (some n) = scalar (num n)

  abbrev wire_scalar : Scalar N → Value N
  wire_scalar (num n) = wire_num (json n)
  wire_scalar (bool b) = scalar (bool b)
  wire_scalar (str s) = scalar (str s)

  wire_cells : List (Scalar N) → Elems N
  wire_cells [] = nil
  wire_cells (s ∷ ss) = cons (wire_scalar s) (wire_cells ss)

  wire_rows : List (List (Scalar N)) → Elems N
  unfolding wire_cells
  wire_rows [] = nil
  wire_rows (r ∷ rs) = cons (sized (wire_cells r)) (wire_rows rs)

  -- A value after `JSON.stringify` and `JSON.parse`.
  unfoldable pub wire : Plain N → Value N
  unfolding wire_rows
  wire (one s) = wire_scalar s
  wire (table rows) = sized (wire_rows rows)

  abbrev pub wire_params : List (Text × Plain N) → List (Text × Value N)
  wire_params [] = []
  wire_params ((name, v) ∷ rest) = (name, wire v) ∷ wire_params rest

  unfoldable pub sent : Description N → Incoming N
  sent d = record { id = d.id; params = wire_params d.params }

  -- JSON carries the number as it is.
  abbrev IsCarried : Scalar N → Type 0
  IsCarried (num n) = json n ≡ some n
  IsCarried _ = Unit

  abbrev pub IsFinite : Plain N → Type 0
  IsFinite (one s) = IsCarried s
  IsFinite (table rows) = All (All IsCarried) rows

  plain_cells-wire : (r : List (Scalar N)) → All IsCarried r → plain_cells (wire_cells r) ≡ some r
  unfolding plain_cells wire_cells
  plain_cells-wire [] h = refl
  plain_cells-wire (num n ∷ r) (h, t) = rw h (rw (plain_cells-wire r t))
  plain_cells-wire (bool b ∷ r) (h, t) = rw (plain_cells-wire r t)
  plain_cells-wire (str s ∷ r) (h, t) = rw (plain_cells-wire r t)

  plain_rows-wire :
      (rs : List (List (Scalar N))) → All (All IsCarried) rs → plain_rows (wire_rows rs) ≡ some rs
  unfolding plain_rows plain_row wire_rows
  plain_rows-wire [] h = refl
  plain_rows-wire (r ∷ rs) (h, t) = rw (plain_cells-wire r h) (rw (plain_rows-wire rs t))

  plain_value-wire : (x : Plain N) → IsFinite x → plain_value (wire x) ≡ some x
  unfolding plain_value wire
  plain_value-wire (one (num n)) h = rw h
  plain_value-wire (one (bool b)) h = refl
  plain_value-wire (one (str s)) h = refl
  plain_value-wire (table rows) h = rw (plain_rows-wire rows h)

  shape-wire :
      (v : Value N) (x : Plain N) → plain_value v ≡ some x → IsFinite x → shape (wire x) ≡ shape v
  unfolding plain_value wire
  shape-wire absent x e h = cc
  shape-wire object x e h = cc
  shape-wire (scalar (num n)) (one (num m)) e h = rw h (cc)
  shape-wire (scalar s) (one (bool m)) e h = ground arith
  shape-wire (scalar s) (one (str m)) e h = ground arith
  shape-wire (scalar (bool n)) (one (num m)) e h = cc
  shape-wire (scalar (str n)) (one (num m)) e h = cc
  shape-wire (scalar s) (table rows) e h = cc
  shape-wire (sized es) (table rows) e h = refl
  shape-wire (sized es) (one s) e h = ground arith

  -- Later assignments of the same plain values keep what is there, and a listed name is assigned.
  module _ (fields : Text → Value N) (n : Text) (x : Plain N)
      (plain : plain_value (fields n) ≡ some x) where
    abbrev rebuilt : List Text → Instance N → Instance N
    rebuilt names p = assign_all (wire_params (plain_params fields names)) p

    -- What an assignment of the plain value of `m` leaves in `n`.
    set_plain :
        (m : Text) (y : Plain N) (p : Instance N)
        → plain_value (fields m) ≡ some y
        → (same_text m n ≡ true) ⊎ (p.fields n ≡ wire x)
        → (set_field m (wire y) p).fields n ≡ wire x
    unfolding set_field
    set_plain m y p e h = elim (Bool-cases (same_text m n)) [
      | inl same ↦
          let there : plain_value (fields m) ≡ some x = rw ((same_text_iff m n).0 same) plain in
          let equal : y ≡ x = cc in rw same (ap wire equal)
      | inr apart ↦ ground arith
    ]

    kept :
        (names : List Text) (p : Instance N)
        → p.fields n ≡ wire x
        → (rebuilt names p).fields n ≡ wire x
    unfolding assign_all plain_params
    kept [] p h = h
    kept (m ∷ names) p h = elim (Option-cases (plain_value (fields m))) [
      | inl e ↦ rw e (kept names p h)
      | inr (y, e) ↦ rw e (kept names (set_field m (wire y) p) (set_plain m y p e (inr h)))
    ]

    assigned :
        (names : List Text) (p : Instance N)
        → has_text names n ≡ true
        → (rebuilt names p).fields n ≡ wire x
    unfolding assign_all plain_params has_text
    assigned [] p h = absurd (ground arith)
    assigned (m ∷ names) p h = elim (Option-cases (plain_value (fields m))) [
      | inl e ↦ elim (Bool-cases (same_text m n)) [
        | inl same ↦
            let there : plain_value (fields m) ≡ some x = rw ((same_text_iff m n).0 same) plain in
            absurd (ground arith)
        | inr apart ↦ rw e (assigned names p (ground arith))
      ]
      | inr (y, e) ↦ elim (Bool-cases (same_text m n)) [
        | inl same ↦ rw e (kept names (set_field m (wire y) p) (set_plain m y p e (inl same)))
        | inr apart ↦ rw e (assigned names (set_field m (wire y) p) (ground arith))
      ]
    ]

  -- What JSON must carry: each parameter that has a plain value, and of the default's type.
  abbrev pub IsPortable : (Text → Value N) → (Text → Value N) → List Text → Type 0
  IsPortable defaults fields = All (λ n.
      (x : Plain N)
      → plain_value (fields n) ≡ some x
      → IsFinite x × (shape (defaults n) ≡ shape (fields n)))

  params-Accepted :
      (known : List Text) (defaults fields : Text → Value N) (names : List Text)
      → All (λ n. has_text known n ≡ true) names
      → IsPortable defaults fields names
      → Accepted known defaults (wire_params (plain_params fields names))
  unfolding plain_params
  params-Accepted known defaults fields [] h k = tt
  params-Accepted known defaults fields (n ∷ names) (listed, h) (portable, k) =
      elim (Option-cases (plain_value (fields n))) [
        | inl e ↦ rw e (params-Accepted known defaults fields names h k)
        | inr (x, e) ↦
            let (finite, same) = portable x e in
            let fits : Fits (defaults n) (wire x) = (
              shape-wire (fields n) x e finite ∙ sym same,
              λ none_there. absurd (some-ne-none x (sym (plain_value-wire x finite) ∙ none_there)),
            ) in
            rw e ((listed, fits), params-Accepted known defaults fields names h k)
      ]

  module _ (create : Text → Instance N) (to_source : Instance N → Text) where
    -- For a process of the allowlist: if the worker's default instance lists the same parameters as the server's, and if every listed
    -- parameter that has a plain value has one that JSON can carry and of the type of the default, then
    -- the worker accepts the description and rebuilds each of them: the field has the same plain value.
    -- The names that the worker knows are those of the server's instance. One value that JSON cannot
    -- carry, as NaN, is outside of this.
    pub deserialize-serialize :
        (p : Instance N)
        → has_text allowlist p.id ≡ true
        → known_names create to_source p.id ≡ parameter_names (to_source p)
        → IsPortable (create p.id).fields p.fields (parameter_names (to_source p))
        → (d : Description N) × (serialize_process create to_source p ≡ ok d)
          × (r : Rebuilt N) × (deserialize_process create to_source (some (sent d)) p.id ≡ ok r)
          × (r.known ≡ parameter_names (to_source p))
          × ((n : Text) (x : Plain N)
              → has_text (parameter_names (to_source p)) n ≡ true
              → plain_value (p.fields n) ≡ some x
              → plain_value (r.process.fields n) ≡ some x)
    unfolding serialize_process sent
    deserialize-serialize p allowed same portable =
        let names = parameter_names (to_source p) in
        let d : Description N = record { id = p.id; params = plain_params p.fields names } in
        let r : Rebuilt N = record {
          process = assign_all (wire_params d.params) (create p.id);
          known = names;
        } in
        let accepted =
          params-Accepted names (create p.id).fields p.fields names (listed_self names) portable in
        let acceptable : IsAcceptable create to_source (sent d) p.id = record {
          allowed = allowed;
          is_expected = inr refl;
          params = rw same accepted;
        } in
        (
          d,
          rw allowed,
          r,
          (deserialize_process_iff create to_source (sent d) p.id r).1 (acceptable, refl, sym same),
          refl,
          λ n x listed plain.
              rw (assigned p.fields n x plain names (create p.id) listed)
                (plain_value-wire x (at_listed _ names n portable listed x plain).0),
        )
