-- ===== src/Masters/Drizzle.antt =====
-- The drizzle bookkeeping of finalizeLightMaster in pjsr/lib/WBPPShim.js.
use distributed_wbpp.Prelude.{
  ◌≡◌, refl, inl, inr, ◌∙◌, ap, Bool, true, false, not, ◌&&◌, ◌||◌, Option, none, some, List, [],
  ◌∷◌, Text, text, arith, keep, same_text, same_text_iff, Bool-cases,
}
use mathlib.Core.Path.{fun_ext}
use distributed_wbpp.Calls.{Call, pure, ◌>>◌, after}
use distributed_wbpp.Queue.{Frame}
use distributed_wbpp.Transfer.{Output}
use distributed_wbpp.Masters.{sort_output, split_outputs, is_stale, mark_stale}
use distributed_wbpp.Windows.{Engine, Bundle, entry, put_entry, ends_in, no_outputs}

abbrev is_some : Option Text → Bool
is_some none = false
is_some (some t) = true

put_entry_lem :
    (n k v : Text) (m : List (Text × Text))
    → is_some (entry n (put_entry k v m)) ≡ (same_text k n || is_some (entry n m))
unfolding entry put_entry
put_entry_lem n k v [] = ground arith
put_entry_lem n k v ((j, u) ∷ m) =
    ground (arith, same_text_iff j k, same_text_iff k n, same_text_iff j n, put_entry_lem n k v m)

module _ {W : Type 0} (E : Engine W) where
  -- Whether an output is a drizzle file with the name of `dz`.
  abbrev pub is_output_of : Text → Output → Bool
  is_output_of dz o =
      not (ends_in (text ".xisf") (E.base_of o.path))
      && (ends_in (text ".xdrz") (E.base_of o.path) && same_text (E.base_of o.path) (E.base_of dz))

  abbrev pub has_output : List Output → Text → Bool
  has_output [] dz = false
  has_output (o ∷ os) dz = is_output_of dz o || has_output os dz

  split_outputs_lem :
      (dz : Text) (vo : List Output) (b : Bundle)
      → is_some (entry (E.base_of dz) (split_outputs E vo b).updated)
        ≡ (is_some (entry (E.base_of dz) b.updated) || has_output vo dz)
  unfolding split_outputs
  split_outputs_lem dz [] b = ground arith
  split_outputs_lem dz (o ∷ os) b =
      split_outputs_lem dz os (sort_output E (E.base_of o.path) o.path b)
      ∙ ground (arith, put_entry_lem (E.base_of dz) (E.base_of o.path) o.path b.updated)

  -- Whether a frame has a drizzle file of which there is no output.
  abbrev pub is_missing : List Output → Frame → Bool
  is_missing vo f = elim (f.drizzle_file) [ none ↦ false | some dz ↦ not (has_output vo dz) ]

  -- Every frame of a list fails, in order.
  abbrev pub fail_all : List Frame → Call W (Unit {0})
  fail_all [] = pure tt
  fail_all (f ∷ fs) = do E.processing_failed f; fail_all fs

  is_stale_lem :
      (vo : List Output) (current : Text) (dz : Option Text)
      → is_stale E
          (split_outputs E vo no_outputs).updated
          (record { current = current; drizzle_file = dz })
        ≡ is_missing vo (record { current = current; drizzle_file = dz })
  unfolding entry
  is_stale_lem vo current none = refl
  is_stale_lem vo current (some dz) =
      let e = split_outputs_lem dz vo no_outputs in ground (arith, e)

  -- Exactly the frames with a drizzle file of whose name there is no output fail, each once and in order,
  -- and a call that throws ends it. Whether the copy back of such an output worked is not looked at.
  pub mark_stale-fail_all :
      (vo : List Output) (fs : List Frame) (w : W)
      → mark_stale E (split_outputs E vo no_outputs).updated fs w
        ≡ fail_all (keep (is_missing vo) fs) w
  unfolding mark_stale
  mark_stale-fail_all vo [] w = refl
  mark_stale-fail_all vo (f ∷ fs) w =
      let e = is_stale_lem vo f.current f.drizzle_file in
      elim (Bool-cases (is_missing vo f)) [
        | inr no_fail ↦ rw (e, no_fail) (mark_stale-fail_all vo fs w)
        | inl fails ↦
            rw (e, fails)
              (ap
                (λ (k : Call W (Unit {0})).
                  after (λ _. k) (E.processing_failed f w).0 (E.processing_failed f w).1)
                (fun_ext (λ v. mark_stale-fail_all vo fs v)))
      ]
