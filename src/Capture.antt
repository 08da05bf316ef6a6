-- ===== src/Capture.antt =====
-- `__captureViaContainer` of pjsr/lib/WBPPShim.js: the native run of an operation, with the engine's
-- process container swapped for a decoy that keeps the first process it is not told to let through.
pub mod Laws
use distributed_wbpp.Prelude.{
  ℕ, zero, suc, Bool, true, false, Option, none, some, List, [], ◌∷◌, Text, text, Outcome, ok,
  throw,
}

pub data Thrown : Type 0 where
  sentinel : Thrown
  error : Text → Thrown

-- A native run as the container sees it: it ends, it throws, or it adds a process and goes on, by the
-- second part if the add throws (WBPP may catch, clean up and throw again).
pub data Native (P : Type 0) : Type 0 where
  finish : Native P
  fail : Thrown → Native P
  add : P → Native P → Native P → Native P

-- What `engine.processContainer` is.
pub data Container : Type 0 where
  native_container decoy : Container

-- `forwarded` are the processes that the native container was given.
pub record Captured (P : Type 0) : Type 0 where
  pub captured : Option P
  pub native_error : Option Text
  pub forwarded : List P
  pub container : Container

abbrev pub forward : {P : Type 0} → P → Captured P → Captured P
forward p c = record c { forwarded = p ∷ c.forwarded }

-- `catch ( e ) { if ( e !== sentinel ) nativeErr = e; }`
abbrev pub caught : Thrown → Option Text
caught sentinel = none
caught (error e) = some e

-- The run under the decoy, which has `skip` processes to let through; an error of the native add is
-- swallowed.
unfoldable pub run_decoy : {P : Type 0} → ℕ → Option P → Native P → Captured P
run_decoy skip captured finish = record {
  captured = captured;
  native_error = none;
  forwarded = [];
  container = decoy;
}
run_decoy skip captured (fail t) = record {
  captured = captured;
  native_error = caught t;
  forwarded = [];
  container = decoy;
}
run_decoy (suc skip) captured (add p next thrown) = forward p (run_decoy skip captured next)
run_decoy zero captured (add p next thrown) = run_decoy zero (some p) thrown

-- `finally { engine.processContainer = orig; }`
unfoldable pub restore : {P : Type 0} → Captured P → Captured P
restore c = record c { container = native_container }

-- The first argument says whether `engine.processContainer` is there.
unfoldable pub capture_via_container : {P : Type 0} → Bool → Native P → ℕ → Outcome (Captured P)
unfolding run_decoy restore
capture_via_container false run skip =
    throw (text "engine.processContainer not available for capture")
capture_via_container true run skip = ok (restore (run_decoy skip none run))
