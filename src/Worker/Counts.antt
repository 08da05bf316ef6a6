-- ===== src/Worker/Counts.antt =====
-- The outputs that processJob of pjsr/lib/WorkerRuntime.js reports for a process's targets, and countFrames.
use distributed_wbpp.Prelude.{
  suc, ◌≡◌, refl, ap, inl, inr, Bool, true, false, ◌&&◌, List, [], ◌∷◌, ◌++◌, Text, text, arith,
  All, length, Bool-cases,
}
use distributed_wbpp.Worker.{
  Manifest, Platform, outputs_of, output_name, ext_of, postfix_of, prefix_of,
}
use distributed_wbpp.Worker.Session.{is_xdrz, is_xdrz_end, count_frames}

is_xdrz-append : (s t : Text) → is_xdrz t ≡ true → is_xdrz (s ++ t) ≡ true
unfolding is_xdrz
is_xdrz-append [] t h = h
is_xdrz-append (c ∷ s) t h = ground (arith, is_xdrz-append s t h)

module _ {N : Type 0} (X : Platform N) where
  drizzle_name : (job : Manifest N) (n : Text) → is_xdrz (output_name X job n (text ".xdrz")) ≡ true
  unfolding is_xdrz is_xdrz_end
  drizzle_name job n =
      is_xdrz-append (prefix_of job) _
        (is_xdrz-append (X.name_of n) _ (is_xdrz-append (postfix_of job) (text ".xdrz") refl))

  -- Where no output has the name of a drizzle file, the frames that are counted are the job's inputs, each
  -- once, whatever drizzle files there are.
  pub count_frames-outputs_of :
      (present : Text → Bool) (job : Manifest N) (ns : List Text)
      → All (λ n. is_xdrz (output_name X job n (ext_of job)) ≡ false) ns
      → count_frames (outputs_of X present job ns) ≡ length ns
  unfolding count_frames outputs_of
  count_frames-outputs_of present job [] h = refl
  count_frames-outputs_of present job (n ∷ ns) (h, t) =
      elim (Bool-cases (job.drizzle && present (output_name X job n (text ".xdrz")))) [
        | inl e ↦ rw (e, h, drizzle_name job n) (ap suc (count_frames-outputs_of present job ns t))
        | inr e ↦ rw (e, h) (ap suc (count_frames-outputs_of present job ns t))
      ]
