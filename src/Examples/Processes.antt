-- ===== src/Examples/Processes.antt =====
-- pjsr/lib/ProcessSerializer.js, at a StarAlignment with two parameters.
use distributed_wbpp.Prelude.{
  ℕ, ◌≡◌, refl, ◌↔◌, true, false, some, [], ◌∷◌, map, Text, text, ok, All, same_text, has_text,
  subst, sym, if◌then◌else◌,
}
use distributed_wbpp.Serializer.{
  Value, absent, scalar, sized, num, nil, Plain, one, table, Instance, Description, Incoming,
  Rebuilt, allowlist, set_field, plain_value, check_param, serialize_process, deserialize_process,
  assign_params, plain_rows,
}
use distributed_wbpp.Serializer.Listing.{
  parameter_names, inherited, is_newline, is_space, is_name_start, is_name_unit,
}
use distributed_wbpp.Serializer.Listing.Source.{is_quiet, IsFit, listing, parameter_names-listing}
use distributed_wbpp.Serializer.Checks.{shape}
use distributed_wbpp.Serializer.Accepts.{
  assign_all, IsAcceptable, known_names, deserialize_process_iff, deserialize_process_safe,
}
use distributed_wbpp.Serializer.RoundTrip.{sent, IsFinite, IsPortable, deserialize-serialize}

abbrev pub star : Text
star = text "StarAlignment"

abbrev pub scale : Text
scale = text "scale"

abbrev pub targets : Text
targets = text "targets"

abbrev pub defaults : Text → Value ℕ
defaults n =
    if same_text n scale then scalar (num 1) else if same_text n targets then sized nil else absent

abbrev pub create : Text → Instance ℕ
create id = record { id = id; fields = defaults }

abbrev pub source : Text
source = listing star ((scale, text "1") ∷ (targets, text "[]") ∷ [])

abbrev pub to_source : Instance ℕ → Text
to_source p = source

quiet : is_quiet star ≡ true
unfolding is_newline is_space
quiet = refl

own : All (λ n. has_text inherited n ≡ false) (scale ∷ targets ∷ [])
unfolding has_text same_text
own = (refl, (refl, tt))

fit : All IsFit ((scale, text "1") ∷ (targets, text "[]") ∷ [])
unfolding is_newline is_space is_name_start is_name_unit
fit = (
  ((refl, (refl, (refl, (refl, (refl, tt))))), refl),
  (((refl, (refl, (refl, (refl, (refl, (refl, (refl, tt))))))), refl), tt),
)

names_read : parameter_names source ≡ scale ∷ targets ∷ []
unfolding has_text same_text
names_read =
    parameter_names-listing star ((scale, text "1") ∷ (targets, text "[]") ∷ []) quiet fit
      (refl, (refl, tt)) own

parameter_names-listing_example : parameter_names source ≡ scale ∷ targets ∷ []
unfolding has_text same_text
parameter_names-listing_example =
    parameter_names-listing star ((scale, text "1") ∷ (targets, text "[]") ∷ []) quiet fit
      (refl, (refl, tt)) own

abbrev pub wanted : Incoming ℕ
wanted = record { id = star; params = (scale, scalar (num 5)) ∷ [] }

abbrev rebuilt : Rebuilt ℕ
rebuilt = record {
  process = set_field scale (scalar (num 5)) (create star);
  known = scale ∷ targets ∷ [];
}

deserialize_process_iff_example :
    (deserialize_process create to_source (some wanted) star ≡ ok rebuilt) ↔ (
      IsAcceptable create to_source wanted star
      × (rebuilt.process ≡ assign_all wanted.params (create star))
      × (rebuilt.known ≡ known_names create to_source star))
deserialize_process_iff_example = deserialize_process_iff create to_source wanted star rebuilt

pub accepted : deserialize_process create to_source (some wanted) star ≡ ok rebuilt
unfolding deserialize_process has_text same_text assign_params parameter_names is_space is_newline
    is_name_start is_name_unit check_param
accepted = refl

deserialize_process_safe_example :
    (d : Incoming ℕ) × (some wanted ≡ some d)
    × (has_text allowlist d.id ≡ true)
    × ((n : Text) → shape (rebuilt.process.fields n) ≡ shape ((create d.id).fields n))
    × ((n : Text)
        → has_text (map (λ b. b.0) d.params) n ≡ false
        → rebuilt.process.fields n ≡ (create d.id).fields n)
deserialize_process_safe_example =
    deserialize_process_safe create to_source (some wanted) star rebuilt accepted

abbrev server_process : Instance ℕ
server_process = set_field scale (scalar (num 5)) (create star)

portable : IsPortable (λ n. some n) defaults server_process.fields (parameter_names source)
unfolding set_field same_text plain_value plain_rows
portable =
    subst (λ ns. IsPortable (λ n. some n) defaults server_process.fields ns) (sym names_read)
      (
        (λ x e.
            let same : Path (Plain ℕ) (one (num 5)) x = cc in
            (subst (λ y. IsFinite (λ n. some n) y) same refl, refl)),
        (
          (λ x e.
              let same : Path (Plain ℕ) (table []) x = cc in
              (subst (λ y. IsFinite (λ n. some n) y) same tt, refl)),
          tt,
        ),
      )

deserialize-serialize_example :
    (d : Description ℕ) × (serialize_process create to_source server_process ≡ ok d)
    × (r : Rebuilt ℕ) × (deserialize_process create to_source (some (sent (λ n. some n) d)) star
        ≡ ok r)
    × (r.known ≡ parameter_names source)
    × ((n : Text) (x : Plain ℕ)
        → has_text (parameter_names source) n ≡ true
        → plain_value (server_process.fields n) ≡ some x
        → plain_value (r.process.fields n) ≡ some x)
unfolding has_text same_text set_field
deserialize-serialize_example =
    deserialize-serialize (λ n. some n) create to_source server_process refl refl portable
