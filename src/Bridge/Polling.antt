-- ===== src/Bridge/Polling.antt =====
-- `workers` of pjsr/lib/SidecarBridge.js: the poll of the agent for the machines of the cluster, until their
-- number has been the same for a while.
use distributed_wbpp.Prelude.{
  ℕ, zero, suc, ◌+◌, ◌-◌, ◌*◌, ◌/◌, ◌≤◌, ◌<◌, ◌≡◌, ◌≢◌, inl, inr, Bool, false, ◌&&◌, ◌||◌, Option,
  none, some, List, [], Outcome, ok, throw, arith, length, ltb, leb, if◌then◌else◌, Bool-cases,
  Outcome-cases,
}

-- What the agent answered: its lists, or null where there is no response.
pub record Nodes (A : Type 0) : Type 0 where
  pub workers : List A
  pub incompatible : List A

-- `ask` is one `ctl nodes` call with its response consumed; the clock counts milliseconds.
pub record Agent (A W : Type 0) : Type 0 where
  pub ask : W → Outcome (Option (Nodes A)) × W
  pub now : W → ℕ
  pub sleep : ℕ → W → W

pub record Looking (A : Type 0) : Type 0 where
  pub start : ℕ
  pub last_grow : ℕ
  pub best : List A
  pub incompatible : List A

-- How a poll ended; `unfinished` is a loop that ran out of fuel.
pub data Ended (A : Type 0) : Type 0 where
  found : Looking A → Ended A
  threw : Ended A
  unfinished : Ended A

module _ {A W : Type 0} (G : Agent A W) (wait_ms settle_ms : ℕ) where
  abbrev workers_of : Option (Nodes A) → List A
  workers_of none = []
  workers_of (some n) = n.workers

  abbrev incompatible_of : Option (Nodes A) → List A
  incompatible_of none = []
  incompatible_of (some n) = n.incompatible

  -- What an answer changes.
  unfoldable pub heard : Option (Nodes A) → ℕ → Looking A → Looking A
  heard r now l =
      if ltb (length l.best) (length (workers_of r))
      then record l { incompatible = incompatible_of r; best = workers_of r; last_grow = now }
      else record l { incompatible = incompatible_of r }

  unfoldable pub is_settled : ℕ → Looking A → Bool
  is_settled now l =
      (ltb 0 (length l.best) && leb settle_ms (now - l.last_grow)) || ltb wait_ms (now - l.start)

  unfoldable pub poll : ℕ → Looking A → W → Ended A × W
  unfolding heard is_settled
  poll zero l w = (unfinished, w)
  poll (suc fuel) l w =
      let (answer, v) = G.ask w in
      elim answer [
        | throw e ↦ (threw, v)
        | ok r ↦
            let k = heard r (G.now v) l in
            let rest = poll fuel k (G.sleep 500 v) in
            if is_settled (G.now v) k then (found k, v) else rest
      ]

  -- `workers`
  unfoldable pub workers : W → Ended A × W
  unfolding poll
  workers w =
      poll (suc (wait_ms / 500 + 1))
        (record { start = G.now w; last_grow = G.now w; best = []; incompatible = [] }) w

  module _ (ticks : (n : ℕ) (w : W) → G.now w + n ≤ G.now (G.sleep n w))
      (asks : (w : W) → G.now w ≤ G.now (G.ask w).1) where
    heard-start : (r : Option (Nodes A)) (n : ℕ) (l : Looking A) → (heard r n l).start ≡ l.start
    unfolding heard
    heard-start r n l = ground arith

    in_time :
        (n : ℕ) (r : Option (Nodes A)) (l : Looking A)
        → is_settled n (heard r n l) ≡ false
        → n - l.start ≤ wait_ms
    unfolding is_settled
    in_time n r l h =
        let e = heard-start r n l in
        let late : ltb wait_ms (n - (heard r n l).start) ≡ false = ground (arith, h) in
        ground (arith, e, late)

    poll_ends :
        (fuel : ℕ) (l : Looking A) (w : W)
        → l.start ≤ G.now w
        → wait_ms < (G.now w - l.start) + 500 * fuel
        → (poll (suc fuel) l w).0 ≢ unfinished
    unfolding poll
    poll_ends zero l w h k = elim (Outcome-cases (G.ask w).0) [
      | inr (e, threw_e) ↦ rw (threw_e, poll) (λ c. cc)
      | inl (r, answered) ↦
          let v = (G.ask w).1 in
          rw (answered, poll)
            (elim (Bool-cases (is_settled (G.now v) (heard r (G.now v) l))) [
              | inl e ↦ rw e (λ c. cc)
              | inr e ↦ absurd (omega (arith, in_time (G.now v) r l e, asks w))
            ])
    ]
    poll_ends (suc fuel) l w h k = elim (Outcome-cases (G.ask w).0) [
      | inr (e, threw_e) ↦ rw (threw_e, poll) (λ c. cc)
      | inl (r, answered) ↦
          let v = (G.ask w).1 in
          rw (answered, poll)
            (elim (Bool-cases (is_settled (G.now v) (heard r (G.now v) l))) [
              | inl e ↦ rw e (λ c. cc)
              | inr e ↦
                  let start = heard-start r (G.now v) l in
                  rw e (
                    poll_ends fuel (heard r (G.now v) l) (G.sleep 500 v)
                      (omega (arith, asks w, ticks 500 v, start))
                      (omega (arith, asks w, ticks 500 v, start)))
            ])
    ]

    -- The poll ends with a result or an error of a call, on a clock that a sleep moves on by its length
    -- and that an answer does not set back: the fuel is enough.
    pub workers_ends : (w : W) → (workers w).0 ≢ unfinished
    unfolding workers
    workers_ends w =
        poll_ends (wait_ms / 500 + 1)
          (record { start = G.now w; last_grow = G.now w; best = []; incompatible = [] }) w
          (omega arith) (omega arith)
