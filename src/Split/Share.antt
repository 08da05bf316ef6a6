-- ===== src/Split/Share.antt =====
-- The two shares: they are the whole group, and the slower lane does not get more of it.
use distributed_wbpp.Prelude.{
  ℕ, ◌+◌, ◌/◌, ◌≤◌, ◌≡◌, none, List, ◌++◌, Text, arith, length, take-append-drop, length-take,
}
use distributed_wbpp.Split.{
  Rounded, nan, negative, whole, infinite, Number, clamp, index, slice_to, slice_from, Costs,
  raw_count, server_count,
}

clamp_le : (m : ℕ) (r : Rounded) → index (clamp m r) ≤ m
unfolding clamp
clamp_le m r = ground arith

quotient_le : (m k : ℕ) → m / (k + 1) ≤ m
quotient_le m k = grind arith

even_share : (m k : ℕ) → index (clamp m (whole (m / (k + 1)))) ≡ m / (k + 1)
unfolding clamp
even_share m k = ground (arith, quotient_le m k)

-- The order of what `Math.round` gives, NaN being comparable to nothing.
abbrev pub LeRounded : Rounded → Rounded → Type 0
LeRounded negative nan = ⊥
LeRounded negative _ = Unit
LeRounded (whole a) (whole b) = a ≤ b
LeRounded (whole a) infinite = Unit
LeRounded infinite infinite = Unit
LeRounded _ _ = ⊥

-- What correctly rounded arithmetic documents: its operations are monotone. `Positive` are the finite
-- numbers above 0.
pub record IsMonotone (J : Number) : Type 1 where
  pub Le : J.N → J.N → Type 0
  pub Positive : J.N → Type 0
  pub add-mono : (a b c : J.N) → Le a b → Le (J.add a c) (J.add b c)
  pub div-anti : (a b c : J.N) → Positive a → Positive b → Le b c → Le (J.div a c) (J.div a b)
  pub round-mono : (a b : J.N) → Le a b → LeRounded (J.round a) (J.round b)

module _ (J : Number) where
  -- Whatever was learned, NaN and infinities included, the server's frames and the clients' frames are
  -- the group, in order: no frame is lost and none is done twice. The server keeps as many frames as the
  -- count says, and without any measure it keeps the whole part of an even share.
  pub shares_are_all :
      {A : Type 0} (c : Costs J) (label : Text) (inputs : List A) (n_workers : ℕ)
      → let n = server_count J c label (length inputs) n_workers in
        (slice_to n inputs ++ slice_from n inputs ≡ inputs)
        × (length (slice_to n inputs) ≡ index n)
        × ((c.server label ≡ none)
            → (c.global_share ≡ none)
            → length (slice_to n inputs) ≡ length inputs / (n_workers + 1))
  unfolding server_count slice_to slice_from
  shares_are_all c label inputs n_workers =
      let m = length inputs in
      let r = raw_count J (c.server label) (c.cluster label) c.global_share m n_workers in
      (
        take-append-drop (index (clamp m r)) inputs,
        omega (arith, length-take (index (clamp m r)) inputs, clamp_le m r),
        λ no_server no_share.
            rw (no_server, no_share)
              (omega (
                arith,
                length-take (index (clamp m (whole (m / (n_workers + 1))))) inputs,
                even_share m n_workers,
              )),
      )
