-- ===== src/Examples/Splits.antt =====
-- The adaptive split of pjsr/lib/WBPPShim.js on the natural numbers with a rounded quotient.
use distributed_wbpp.Prelude.{
  ℕ, zero, suc, ◌+◌, ◌-◌, ◌*◌, ◌/◌, ◌≤◌, ◌<◌, ◌≡◌, none, some, List, [], ◌∷◌, ◌++◌, Text, text,
  arith, length, ltb, leb, if◌then◌else◌,
}
use distributed_wbpp.Split.{whole, Number, Costs, server_count, slice_to, slice_from, index}
use distributed_wbpp.Split.Share.{IsMonotone, shares_are_all}

pub quotient : ℕ → ℕ → ℕ → ℕ
quotient zero a b = 0
quotient (suc fuel) a b = let rest = quotient fuel (a - b) b in if leb b a then suc rest else 0

quotient-anti : (fuel a a' b c : ℕ) → a ≤ a' → b ≤ c → quotient fuel a c ≤ quotient fuel a' b
unfolding quotient
quotient-anti zero a a' b c h k = omega arith
quotient-anti (suc fuel) a a' b c h k =
    ground (arith, quotient-anti fuel (a - c) (a' - b) b c (omega arith) k)

abbrev pub naturals : Number
naturals = record {
  N = ℕ;
  of_nat = λ n. n;
  add = λ a b. a + b;
  mul = λ a b. a * b;
  div = λ a b. quotient a a b;
  gt = λ a b. ltb b a;
  round = λ a. whole a;
  six_tenths = 1;
  four_tenths = 0;
}

abbrev monotone : IsMonotone naturals
monotone = record {
  Le = λ a b. a ≤ b;
  Positive = λ a. 0 < a;
  add-mono = λ a b c h. omega arith;
  div-anti = λ a b c p q h. quotient-anti a a a b c (omega arith) h;
  round-mono = λ a b h. h;
}

abbrev label : Text
label = text "registration"

-- 3 s for a frame on the server or 9 s, and 6 s in the cluster.
abbrev fast_server : Costs naturals
fast_server = record { server = λ l. some 3; cluster = λ l. some 6; global_share = none }

abbrev slow_server : Costs naturals
slow_server = record { server = λ l. some 9; cluster = λ l. some 6; global_share = none }

abbrev frames : List ℕ
frames = 7 ∷ 8 ∷ 9 ∷ []

abbrev pub new_costs : Costs naturals
new_costs = record { server = λ l. none; cluster = λ l. none; global_share = none }

shares_are_all_example :
    (slice_to (server_count naturals new_costs label 3 2) frames
        ++ slice_from (server_count naturals new_costs label 3 2) frames
      ≡ frames)
    × (length (slice_to (server_count naturals new_costs label 3 2) frames)
        ≡ index (server_count naturals new_costs label 3 2))
    × ((new_costs.server label ≡ none)
        → (new_costs.global_share ≡ none)
        → length (slice_to (server_count naturals new_costs label 3 2) frames) ≡ 3 / 3)
shares_are_all_example = shares_are_all naturals new_costs label frames 2

-- 12 s for 4 frames on the server; the cluster did 6 frames in 1 s and returned one.
abbrev server_frames : ℕ
server_frames = 4

abbrev cluster_frames : ℕ
cluster_frames = 6

abbrev returned : ℕ
returned = 1
