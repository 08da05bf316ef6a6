-- ===== src/Examples/Lanes.antt =====
-- captureAndDistribute of pjsr/lib/WBPPShim.js, with a cluster that brings the first output of a shard only, and
-- fails on an empty one. The state is the list of the files that are there.
use distributed_wbpp.Prelude.{
  ℕ, ◌+◌, ◌<◌, ◌≡◌, refl, ◌⊎◌, ◌↔◌, true, false, none, some, List, [], ◌∷◌, ◌++◌, map, Text, text,
  Outcome, ok, throw, arith, All, All-map, length, keep, has_text, same_text_refl,
}
use distributed_wbpp.Queue.{light}
use distributed_wbpp.Calls.{Ends, returned, threw}
use distributed_wbpp.Operation.{
  done, failed, Descriptor, Group, Naming, Report, process, Surroundings, Cluster, is_failed,
  count_ok, count_failed, status_of, named,
}
use distributed_wbpp.Split.{index}
use distributed_wbpp.Distribute.{
  split_point, State, is_there, run_missing, mark_frames, distribute_captured, output_of,
}
use distributed_wbpp.Distribute.Marks.{mark_frames_status}
use distributed_wbpp.Distribute.Complete.{IsReliable}
use distributed_wbpp.Distribute.Whole.{IsWhole, IsLost, distribute_captured-IsWhole}
use distributed_wbpp.Distribute.Lost.{cluster_frames_lost}
use distributed_wbpp.Examples.Splits.{naturals, new_costs}

-- The output of a frame.
abbrev out : Text → Text
out f = text "/out" ++ (text "/" ++ ([] ++ (f ++ (text "_r" ++ text ".xisf"))))

abbrev names : Naming
names = record { out_dir = text "/out"; prefix = []; postfix = text "_r"; ext = text ".xisf" }

abbrev report : Report ℕ
report = record { collected = 1; elapsed_ms = 4000 }

abbrev bring : List Text → List Text → Outcome (Report ℕ) × List Text
bring [] w = (throw (text "no report"), w)
bring (f ∷ fs) w = (ok report, out f ∷ w)

abbrev surroundings : Surroundings naturals (List Text)
surroundings = record {
  Process = Text;
  Handle = List Text;
  run_native = λ w. (ok done, w);
  capture = λ w. (ok (process (text "StarAlignment")), w);
  naming = λ p. names;
  refs = λ p. [];
  Source = Text;
  serialize = λ p w. (ok p, w);
  execute = λ p fs w. (ok tt, map out fs ++ w);
  send = λ j w. (ok j.inputs, w);
  wait = λ h w. bring h w;
  elapsed = λ w. 2;
  file_exists = λ f w. has_text w f;
  read_file = λ f w. throw (text "not readable");
  write_file = λ f t w. (ok tt, w);
  name_of = λ f. f;
  dir_of = λ f. text "/in";
  as_xdrz = λ f. f ++ text ".xdrz";
}

has_text-append : (xs w : List Text) (f : Text) → has_text w f ≡ true → has_text (xs ++ w) f ≡ true
unfolding has_text
has_text-append [] w f h = h
has_text-append (x ∷ xs) w f h = ground (arith, has_text-append xs w f h)

made : (fs w : List Text) → All (λ f. has_text (map out fs ++ w) (out f) ≡ true) fs
unfolding has_text
made [] w = tt
made (f ∷ fs) w = (
  rw (same_text_refl (out f)) refl,
  All-map
      (λ g (e : has_text (map out fs ++ w) (out g) ≡ true).
        has_text-append (out f ∷ []) (map out fs ++ w) (out g) e)
      fs (made fs w),
)

abbrev descriptor : Descriptor
descriptor = record {
  label = text "registration";
  out_prefix = none;
  out_postfix = none;
  out_ext = none;
  drizzle = true;
  is_local_norm = false;
}

abbrev frames : List Text
frames = text "a" ∷ text "b" ∷ text "c" ∷ text "d" ∷ text "e" ∷ text "f" ∷ []

brought :
    (h w : List Text)
    → Ends
        (λ _ v. (f : Text) → has_text w f ≡ true → has_text v f ≡ true)
        (λ v. (f : Text) → has_text w f ≡ true → has_text v f ≡ true)
        (bring h w)
unfolding has_text
brought [] w = threw (λ f e. e)
brought (f ∷ fs) w = returned (λ g e. ground (arith, e))

reliable :
    (p : Text) → IsReliable naturals surroundings (named (λ f. text "/in") descriptor frames names)
unfolding named output_of
reliable p = record {
  writes = λ q t f w h. refl;
  execute = λ q fs w. returned ((λ f e. has_text-append (map out fs) w f e), made fs w);
  wait = λ h w. brought h w;
}

abbrev cluster : Cluster
cluster = record { server_works = true; n_workers = 2 }

abbrev start : State naturals surroundings
start = record { world = []; costs = new_costs }

abbrev star : Text
star = text "StarAlignment"

distribute_captured-IsWhole_example :
    Ends
      (λ r _.
        IsWhole 6 r.0 r.1
        ⊎ IsLost naturals surroundings
            (named (λ f. text "/in") descriptor frames names)
            (index (split_point naturals cluster new_costs (text "registration") 6))
            frames
            r.1)
      (λ t. Unit {0})
      (distribute_captured naturals surroundings cluster descriptor frames star start)
distribute_captured-IsWhole_example =
    distribute_captured-IsWhole naturals surroundings cluster descriptor frames star start
      (reliable star)

abbrev group : Group
group = record { image_type = some light; frames = frames; fast_integration = false }

abbrev half_there : List Text
half_there = out (text "a") ∷ []

mark_frames_status_example :
    let ms = (mark_frames naturals surroundings descriptor names frames half_there).0 in
    (count_ok ms ≡ length (keep (is_there naturals surroundings names half_there) frames))
    × (count_ok ms + count_failed ms ≡ 6)
    × ((status_of ms ≡ failed)
        ↔ (0 < 6) × (length (keep (is_there naturals surroundings names half_there) frames) ≡ 0))
mark_frames_status_example =
    mark_frames_status naturals surroundings (λ q t f w h. refl) descriptor names frames half_there

lost : All (λ f. is_there naturals surroundings names [] f ≡ false) (text "a" ∷ text "b" ∷ [])
unfolding has_text
lost = (refl, (refl, tt))

cluster_frames_lost_example :
    (run_missing naturals surroundings star names (text "a" ∷ text "b" ∷ []) start ≡ (ok tt, start))
    × All
        (λ m. is_failed m ≡ true)
        (mark_frames naturals surroundings descriptor names (text "a" ∷ text "b" ∷ []) []).0
cluster_frames_lost_example =
    cluster_frames_lost naturals surroundings (λ q t f w h. refl) descriptor names star
      (text "a" ∷ text "b" ∷ []) start lost
