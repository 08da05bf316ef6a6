-- ===== src/Split.antt =====
-- The adaptive split of pjsr/lib/WBPPShim.js: how many frames of a group the server keeps, and what it
-- learns from the times that both lanes took. JavaScript's numbers are an argument, `Number`: the costs
-- are fractions of seconds, and nothing but these operations touches them.
pub mod Share
pub mod Learning
use distributed_wbpp.Prelude.{
  ℕ, zero, suc, ◌+◌, ◌/◌, Bool, true, false, ◌&&◌, Option, none, some, List, [], ◌∷◌, Text, ltb,
  leb, same_text, if◌then◌else◌, take, drop, text,
}

-- What `Math.round` gives: NaN, less than 0 (or minus infinity), a natural number, plus infinity.
pub data Rounded : Type 0 where
  nan : Rounded
  negative : Rounded
  whole : ℕ → Rounded
  infinite : Rounded

pub record Number : Type 1 where
  pub N : Type 0
  pub of_nat : ℕ → N
  pub add : N → N → N
  pub mul : N → N → N
  pub div : N → N → N
  pub gt : N → N → Bool
  pub round : N → Rounded
  pub six_tenths : N
  pub four_tenths : N

-- `Math.max( 0, Math.min( m, n ) )`; `none` is NaN.
unfoldable pub clamp : ℕ → Rounded → Option ℕ
clamp m nan = none
clamp m negative = some 0
clamp m (whole n) = if leb n m then some n else some m
clamp m infinite = some m

-- `xs.slice( 0, n )` and `xs.slice( n )`: NaN counts as 0.
abbrev pub index : Option ℕ → ℕ
index none = 0
index (some n) = n

module _ {A : Type 0} where
  unfoldable pub slice_to : Option ℕ → List A → List A
  slice_to n xs = take (index n) xs

  unfoldable pub slice_from : Option ℕ → List A → List A
  slice_from n xs = drop (index n) xs

module _ (J : Number) where
  open J use {N, of_nat, add, mul, div, gt, round, six_tenths, four_tenths}

  -- `__costServer`, `__costCluster` and `__globalServerFrac`; undefined is `none`.
  pub record Costs : Type 0 where
    pub server : Text → Option N
    pub cluster : Text → Option N
    pub global_share : Option N

  -- `__ema`
  unfoldable pub ema : Option N → N → N
  ema none val = val
  ema (some old) val = add (mul six_tenths old) (mul four_tenths val)

  -- The share learned over all operations, or an even split.
  unfoldable pub carried_count : Option N → ℕ → ℕ → Rounded
  carried_count (some share) m n_workers = round (mul (of_nat m) share)
  carried_count none m n_workers = whole (m / (n_workers + 1))

  unfoldable pub raw_count : Option N → Option N → Option N → ℕ → ℕ → Rounded
  unfolding carried_count
  raw_count (some sc) (some cc) share m n_workers = round (div (mul (of_nat m) cc) (add sc cc))
  raw_count none cc share m n_workers = carried_count share m n_workers
  raw_count (some sc) none share m n_workers = carried_count share m n_workers

  -- `__serverCount`
  unfoldable pub server_count : Costs → Text → ℕ → ℕ → Option ℕ
  unfolding raw_count clamp
  server_count c label m n_workers =
      clamp m (raw_count (c.server label) (c.cluster label) c.global_share m n_workers)

  abbrev put : Text → N → (Text → Option N) → Text → Option N
  put label v f other = if same_text label other then some v else f other

  abbrev zero_number : N
  zero_number = of_nat 0

  unfoldable pub learn_server : Text → N → ℕ → Costs → Costs
  learn_server label secs n c =
      if ltb 0 n && gt secs zero_number
      then record c { server = put label (ema (c.server label) (div secs (of_nat n))) c.server }
      else c

  unfoldable pub learn_cluster : Text → N → ℕ → ℕ → Costs → Costs
  learn_cluster label ms n collected c =
      if ltb 0 n && (gt ms zero_number && ltb 0 collected)
      then record c {
        cluster =
            put label (ema (c.cluster label) (div (div ms (of_nat 1000)) (of_nat n))) c.cluster;
      }
      else c

  unfoldable pub learn_share : Option N → Option N → Costs → Costs
  learn_share (some sc) (some cc) c =
      if gt (add sc cc) zero_number
      then record c { global_share = some (ema c.global_share (div cc (add sc cc))) }
      else c
  learn_share none cc c = c
  learn_share (some sc) none c = c

  -- `__learnCosts`
  unfoldable pub learn_costs : Text → N → ℕ → N → ℕ → ℕ → Costs → Costs
  unfolding learn_server learn_cluster learn_share ema
  learn_costs label secs server_n ms cluster_n collected c =
      let c' = learn_cluster label ms cluster_n collected (learn_server label secs server_n c) in
      learn_share (c'.server label) (c'.cluster label) c'
