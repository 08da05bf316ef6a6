-- ===== src/Distribute/Marks.antt =====
-- The last loop of captureAndDistribute of pjsr/lib/WBPPShim.js: the marks of the frames and the status.
use distributed_wbpp.Prelude.{
  ◌+◌, ◌<◌, ◌≡◌, refl, ◌∙◌, inl, inr, ◌↔◌, Bool, true, false, not, ◌&&◌, Option, List, [], ◌∷◌, map,
  Text, arith, length, keep, Bool-cases, Outcome-cases, same_text,
}
use distributed_wbpp.Split.{Number}
use distributed_wbpp.Operation.{
  failed, Mark, Descriptor, Naming, Surroundings, success, is_failed, count_failed, count_ok,
  status_of,
}
use distributed_wbpp.Distribute.{
  is_there, write_changed, canonicalize, mark_frame, mark_frames, output_of,
}

-- Writing a file that is there neither makes nor removes one.
abbrev pub KeepsFiles : {W : Type 0} (J : Number) (S : Surroundings J W) → Type 0
KeepsFiles {W} J S =
    (p t f : Text) (w : W)
    → S.file_exists p w ≡ true
    → S.file_exists f (S.write_file p t w).1 ≡ S.file_exists f w

module _ {W : Type 0} (J : Number) (S : Surroundings J W) (K : KeepsFiles J S) where
  write_changed_keeps :
      (dz txt nt f : Text) (w : W)
      → S.file_exists dz w ≡ true
      → S.file_exists f (write_changed J S dz txt nt w) ≡ S.file_exists f w
  unfolding write_changed
  write_changed_keeps dz txt nt f w h = elim (Bool-cases (same_text nt txt)) [
    | inl e ↦ rw e refl
    | inr e ↦ rw e (K dz nt f w h)
  ]

  canonicalize_keeps :
      (dz f : Text) (w : W)
      → S.file_exists dz w ≡ true
      → S.file_exists f (canonicalize J S dz w) ≡ S.file_exists f w
  unfolding canonicalize
  canonicalize_keeps dz f w h = elim (Outcome-cases (S.read_file dz w)) [
    | inl (txt, e) ↦ rw (e, canonicalize) (write_changed_keeps dz txt _ f w h)
    | inr (msg, e) ↦ rw (e, canonicalize) refl
  ]

  mark_frame_keeps :
      (d : Descriptor) (n : Naming) (f g : Text) (w : W)
      → S.file_exists g (mark_frame J S d n f w).1 ≡ S.file_exists g w
  unfolding mark_frame
  mark_frame_keeps d n f g w = elim (Bool-cases (S.file_exists (output_of J S n f) w)) [
    | inr e ↦ rw e refl
    | inl e ↦ elim (Bool-cases (d.drizzle && S.file_exists (S.as_xdrz (output_of J S n f)) w)) [
      | inl k ↦ rw (e, k) (canonicalize_keeps _ g w (ground arith))
      | inr k ↦ rw (e, k) refl
    ]
  ]

  success_is_ok : (d : Descriptor) (o : Text) (z : Option Text) → is_failed (success d o z) ≡ false
  success_is_ok d o z = ground arith

  mark_frame_lem :
      (d : Descriptor) (n : Naming) (f : Text) (w : W)
      → is_failed (mark_frame J S d n f w).0 ≡ not (is_there J S n w f)
  unfolding mark_frame
  mark_frame_lem d n f w = elim (Bool-cases (S.file_exists (output_of J S n f) w)) [
    | inr e ↦ rw e refl
    | inl e ↦ elim (Bool-cases (d.drizzle && S.file_exists (S.as_xdrz (output_of J S n f)) w)) [
      | inl k ↦ rw (e, k) (success_is_ok d _ _)
      | inr k ↦ rw (e, k) (success_is_ok d _ _)
    ]
  ]

  there_after :
      (d : Descriptor) (n : Naming) (f : Text) (w : W) (fs : List Text)
      → map (λ g. not (is_there J S n (mark_frame J S d n f w).1 g)) fs
        ≡ map (λ g. not (is_there J S n w g)) fs
  there_after d n f w [] = refl
  there_after d n f w (g ∷ fs) =
      rw (mark_frame_keeps d n f (output_of J S n g) w, there_after d n f w fs)

  -- Each frame gets one mark, and it is a failure exactly where the frame's output was not there when the
  -- loop began: canonicalizing the drizzle files of earlier frames does not change that.
  pub mark_frames_exact :
      (d : Descriptor) (n : Naming) (fs : List Text) (w : W)
      → map is_failed (mark_frames J S d n fs w).0 ≡ map (λ f. not (is_there J S n w f)) fs
  unfolding mark_frames
  mark_frames_exact d n [] w = refl
  mark_frames_exact d n (f ∷ fs) w = rw (
    mark_frame_lem d n f w,
    mark_frames_exact d n fs (mark_frame J S d n f w).1,
    there_after d n f w fs,
  )

counted : (ms : List Mark) → count_ok ms + count_failed ms ≡ length ms
unfolding count_ok count_failed
counted [] = refl
counted (m ∷ ms) = ground (arith, counted ms)

count_ok-map :
    {A : Type 0} (p : A → Bool) (ms : List Mark) (fs : List A)
    → map is_failed ms ≡ map (λ f. not (p f)) fs
    → (count_ok ms ≡ length (keep p fs)) × (length ms ≡ length fs)
unfolding count_ok
count_ok-map p [] [] h = (refl, refl)
count_ok-map p [] (f ∷ fs) h = cc
count_ok-map p (m ∷ ms) [] h = cc
count_ok-map p (m ∷ ms) (f ∷ fs) h =
    let e : is_failed m ≡ not (p f) = cc in
    let (k, l) = count_ok-map p ms fs cc in (ground (arith, e, k), omega (arith, l))

status_of_iff : (ms : List Mark) → (status_of ms ≡ failed) ↔ (0 < length ms) × (count_ok ms ≡ 0)
unfolding status_of
status_of_iff ms = ground (arith, counted ms)

-- The counts of the marks are those of the frames whose outputs are there and of the others, and the
-- status is FAILED exactly if there is a frame and no output is there.
pub mark_frames_status :
    {W : Type 0} (J : Number) (S : Surroundings J W) (K : KeepsFiles J S) (d : Descriptor)
    (n : Naming) (fs : List Text) (w : W)
    → let ms = (mark_frames J S d n fs w).0 in
      (count_ok ms ≡ length (keep (is_there J S n w) fs))
      × (count_ok ms + count_failed ms ≡ length fs)
      × ((status_of ms ≡ failed) ↔ (0 < length fs) × (length (keep (is_there J S n w) fs) ≡ 0))
mark_frames_status J S K d n fs w =
    let ms = (mark_frames J S d n fs w).0 in
    let (k, l) = count_ok-map (is_there J S n w) ms fs (mark_frames_exact J S K d n fs w) in
    let (to, from) = status_of_iff ms in
    (
      k,
      counted ms ∙ l,
      (
        (λ h. (omega (arith, l, (to h).0), omega (arith, k, (to h).1))),
        (λ (h, z). from (omega (arith, l), omega (arith, k))),
      ),
    )
