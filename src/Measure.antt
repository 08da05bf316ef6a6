-- ===== src/Measure.antt =====
-- The measurements of pjsr/lib/WBPPShim.js: distributeMeasurements and the wrapped
-- `computeDescriptors` of wrapMeasurements. The server measures its share with WBPP's own code; of the other
-- frames the cluster sends rows, and what it does not send is measured on the server too.
pub mod Whole
pub mod Descriptors
use distributed_wbpp.Prelude.{
  ℕ, ◌+◌, Bool, true, false, not, ◌&&◌, ◌||◌, Option, none, some, List, [], ◌∷◌, map, Text, text,
  Outcome, ok, throw, length, ltb, if◌then◌else◌, ◌==◌, same_text,
}
use distributed_wbpp.Metrics.{
  Cell, Descriptor, is_finite_cell, is_positive, no_metrics, metrics_of, is_valid, build_descriptor,
  undefined, null, number, other,
}
use distributed_wbpp.Split.{Number, Costs, server_count, learn_costs, slice_to, slice_from}
use distributed_wbpp.Calls.{Call, pure, raise, ◌>>=◌, ◌>>◌, attempt}
use distributed_wbpp.Transfer.{Output, verified_outputs}

pub record Counts : Type 0 where
  pub cached : ℕ
  pub measured : ℕ
  pub failed : ℕ

-- `bridge.__serverWorks` is not false, and `bridge.__nWorkers`.
pub record Cluster : Type 0 where
  pub server_works : Bool
  pub n_workers : ℕ

pub record Report (N : Type 0) : Type 0 where
  pub outputs : List Output
  pub elapsed_ms : N

-- WBPP's analyzer, the files and the sidecar. `parse` is `JSON.parse`: none if it throws, and then none
-- for null.
pub record Analyzer (J : Number) (W : Type 0) : Type 1 where
  pub Item : Type 0
  pub Handle : Type 0
  -- `item.current`, and `File.extractNameAndExtension` of it
  pub current : Item → Text
  pub base_of : Text → Text
  pub is_finite : J.N → Bool
  -- `original.call( engine.subframeAnalyzer, items )`
  pub measure : List Item → W → Outcome Counts × W
  pub set_descriptor : Item → Descriptor J.N → W → Outcome (Unit {0}) × W
  -- `__makeTempDir( "measure" )`
  pub make_temp_dir : W → Outcome Text × W
  -- `bridge.distributeAsync` of the measurement of these files, and `bridge.distributeWait`
  pub send : List Text → Text → W → Outcome Handle × W
  pub wait : Handle → W → Outcome (Report J.N) × W
  pub elapsed : W → J.N
  pub file_exists : Text → W → Bool
  pub read_file : Text → W → Outcome Text
  pub parse : Text → Option (Option (ℕ → Cell J.N))

abbrev pub measurements : Text
measurements = text "measurements"

-- `bridge.__nWorkers || 1`
abbrev pub workers_or_one : ℕ → ℕ
workers_or_one n = if n == 0 then 1 else n

abbrev pub no_counts : Counts
no_counts = record { cached = 0; measured = 0; failed = 0 }

module _ {W : Type 0} (J : Number) (A : Analyzer J W) where
  open A use {Item, Handle}

  abbrev pub Row : Type 0
  Row = ℕ → Cell J.N

  -- The costs, and the variables `report.elapsed_ms`, `nMeasured` and `nFailed` of the call.
  pub record State : Type 0 where
    pub world : W
    pub costs : Costs J
    pub elapsed_ms : J.N
    pub measured : ℕ
    pub failed : ℕ

  unfoldable pub lift : {B : Type 0} → (W → Outcome B × W) → Call State B
  lift m s = let (a, w) = m s.world in (a, record s { world = w })

  abbrev pub add_counts : Counts → Call State (Unit {0})
  add_counts c s =
      (ok tt, record s { measured = s.measured + c.measured; failed = s.failed + c.failed })

  abbrev parsed : Outcome Text → Option (Option Row)
  parsed (ok t) = A.parse t
  parsed (throw e) = none

  -- `rowByBase`, the last written first: what cannot be read or parsed is left out.
  unfoldable pub rows_of : List Output → W → List (Text × Option Row) → List (Text × Option Row)
  rows_of [] w rows = rows
  rows_of (o ∷ outs) w rows =
      rows_of outs w
        (elim (parsed (A.read_file o.path w)) [ none ↦ rows | some r ↦ (o.input, r) ∷ rows ])

  -- `rowByBase[ base ]`
  unfoldable pub row_at : Text → List (Text × Option Row) → Option Row
  row_at base [] = none
  row_at base ((b, r) ∷ rows) = if same_text b base then r else row_at base rows

  -- The loop over the cluster's frames: those with no valid descriptor are left over.
  unfoldable pub attach_rows : List (Text × Option Row) → List Item → Call State (List Item)
  unfolding lift row_at
  attach_rows rows [] = pure []
  attach_rows rows (c ∷ cs) =
      let d =
        build_descriptor J A.is_finite (row_at (A.base_of (A.current c)) rows) (A.current c) in
      if d.failed then (do left ← attach_rows rows cs; pure (c ∷ left)) else (do
        lift (A.set_descriptor c d)
        λ s. (ok tt, record s { measured = s.measured + 1 })
        attach_rows rows cs)

  unfoldable pub measure_some : List Item → Call State (Unit {0})
  unfolding lift
  measure_some [] = pure tt
  measure_some (c ∷ cs) = do r ← lift (A.measure (c ∷ cs)); add_counts r

  -- The `try` of the join.
  unfoldable pub join_rows : Handle → List Item → Call State (Unit {0})
  unfolding lift rows_of attach_rows measure_some
  join_rows h clients = do
    report ← lift (A.wait h)
    λ s. (ok tt, record s { elapsed_ms = report.elapsed_ms })
    rows ← λ s.
        let outs = verified_outputs (λ f. A.file_exists f s.world) report.outputs in
        (ok (rows_of outs s.world []), s)
    left ← attach_rows rows clients
    measure_some left

  -- The join with its `catch`.
  unfoldable pub join : Option Handle → List Item → Call State (Unit {0})
  unfolding join_rows lift
  join none clients = pure tt
  join (some h) clients =
      attempt (join_rows h clients) (λ e. do r ← lift (A.measure clients); add_counts r)

  unfoldable pub send_some : List Item → Text → Call State (Option Handle)
  unfolding lift
  send_some [] dir = pure none
  send_some (c ∷ cs) dir = do h ← lift (A.send (map A.current (c ∷ cs)) dir); pure (some h)

  unfoldable pub measure_share : List Item → Call State Counts
  unfolding lift
  measure_share [] = pure no_counts
  measure_share (c ∷ cs) = lift (A.measure (c ∷ cs))

  -- The two lanes, given the split.
  unfoldable pub measure_lanes : List Item → List Item → Call State Counts
  unfolding send_some measure_share join lift
  measure_lanes servers clients = do
    dir ← lift A.make_temp_dir
    h ← send_some clients dir
    r ← measure_share servers
    secs ← λ s. (ok (A.elapsed s.world), s)
    join h clients
    λ s. (
      ok (record {
        cached = r.cached;
        measured = r.measured + s.measured;
        failed = r.failed + s.failed;
      }),
      record s {
        costs =
            learn_costs J measurements secs (length servers) s.elapsed_ms (length clients)
              s.measured s.costs;
      },
    )

  -- distributeMeasurements
  unfoldable pub distribute_measurements : Cluster → List Item → Call State Counts
  unfolding measure_lanes lift
  distribute_measurements c items s =
      if ltb (length items) 2 || not c.server_works
      then lift (A.measure items) s
      else let at =
          server_count J s.costs measurements (length items) (workers_or_one c.n_workers) in
        measure_lanes (slice_to at items) (slice_from at items)
          (record s { elapsed_ms = J.of_nat 0; measured = 0; failed = 0 })

  -- The wrapped `analyzer.computeDescriptors`.
  unfoldable pub compute_descriptors : Cluster → List Item → Call State Counts
  unfolding distribute_measurements lift
  compute_descriptors c items =
      attempt (distribute_measurements c items) (λ e. lift (A.measure items))
