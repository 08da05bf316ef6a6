-- ===== src/Examples/Measures.antt =====
-- The measurements of pjsr/lib/WBPPShim.js, with a client that sends the row of one frame and not of the other.
use distributed_wbpp.Prelude.{
  ℕ, ◌≡◌, refl, Bool, not, true, ◌||◌, some, List, [], ◌∷◌, ◌++◌, Text, text, ok, arith, All,
  All-map, length, ◌==◌, has_text, listed_self, same_text_refl,
}
use distributed_wbpp.Calls.{Returns, returned}
use distributed_wbpp.Measure.{Analyzer, Cluster, State, compute_descriptors}
use distributed_wbpp.Metrics.{Cell, number, build_descriptor}
use distributed_wbpp.Measure.Whole.{IsMeasuring, compute_descriptors_whole}
use distributed_wbpp.Measure.Descriptors.{nulled, build_descriptor-null}
use distributed_wbpp.Examples.Splits.{naturals, new_costs}

-- The state lists the frames that are measured.
abbrev Measured : Type 0
Measured = List Text

abbrev Has : Measured → Text → Type 0
Has w f = has_text w f ≡ true

abbrev analyzer : Analyzer naturals Measured
analyzer = record {
  Item = Text;
  Handle = List Text;
  current = λ f. f;
  base_of = λ f. f;
  is_finite = λ n. true;
  measure =
      λ items w. (ok (record { cached = 0; measured = length items; failed = 0 }), items ++ w);
  set_descriptor = λ f d w. (ok tt, f ∷ w);
  make_temp_dir = λ w. (ok (text "/tmp/measure"), w);
  send = λ fs dir w. (ok fs, w);
  wait = λ h w. (
    ok (record {
      outputs =
          record { input = text "b.xisf"; path = text "/tmp/b.ssm.json"; verified = true } ∷ [];
      elapsed_ms = 4000;
    }),
    w,
  );
  elapsed = λ w. 3;
  file_exists = λ f w. true;
  read_file = λ f w. ok (text "[1]");
  parse = λ t. some (some (λ i. number 1));
}

has_text-append :
    (xs ys : List Text) (f : Text) → has_text (xs ++ ys) f ≡ (has_text xs f || has_text ys f)
unfolding has_text
has_text-append [] ys f = refl
has_text-append (x ∷ xs) ys f = ground (arith, has_text-append xs ys f)

measuring : IsMeasuring naturals analyzer Has
unfolding has_text
measuring = record {
  measure = λ items w. returned (
    All-map {P = λ f. has_text items f ≡ true} {Q = Has (items ++ w)}
        (λ f h. ground (arith, has_text-append items w f)) items (listed_self items),
    λ f h. ground (arith, has_text-append items w f),
  );
  set_descriptor = λ f d w good. returned (rw (same_text_refl f) refl, λ g h. ground (arith, h));
  make_temp_dir = λ w f h. h;
  send = λ fs dir w f h. h;
  wait = λ c w f h. h;
}

abbrev cluster : Cluster
cluster = record { server_works = true; n_workers = 2 }

abbrev frames : List Text
frames = text "a.xisf" ∷ text "b.xisf" ∷ text "c.xisf" ∷ []

abbrev begun : State naturals analyzer
begun = record { world = []; costs = new_costs; elapsed_ms = 0; measured = 0; failed = 0 }

compute_descriptors_whole_example :
    Returns
      (λ _ t. All (Has t.world) frames)
      (compute_descriptors naturals analyzer cluster frames begun)
compute_descriptors_whole_example =
    compute_descriptors_whole naturals analyzer Has measuring cluster frames begun

-- A row of ones, of which all columns but the number of stars are replaced by null.
abbrev ones : ℕ → Cell ℕ
ones i = number 1

abbrev all_but_stars : ℕ → Bool
all_but_stars i = not (i == 14)

build_descriptor-null_example :
    (build_descriptor naturals
      (λ n. true)
      (some (nulled naturals (λ n. true) all_but_stars ones))
      (text "a.xisf")).failed
    ≡ all_but_stars 14
unfolding build_descriptor
build_descriptor-null_example =
    build_descriptor-null naturals (λ n. true) all_but_stars ones (text "a.xisf") refl
