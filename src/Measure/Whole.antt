-- ===== src/Measure/Whole.antt =====
-- distributeMeasurements of pjsr/lib/WBPPShim.js, and the wrapped computeDescriptors.
use distributed_wbpp.Prelude.{
  ℕ, ◌+◌, ◌≡◌, false, inl, inr, subst, not, ◌||◌, Option, none, some, List, [], ◌∷◌, ◌++◌, Text,
  Outcome, ok, throw, length, ltb, Bool-cases, All, All-append, All-map,
}
use distributed_wbpp.Split.{Number, slice_to, slice_from}
use distributed_wbpp.Split.Share.{shares_are_all}
use distributed_wbpp.Calls.{◌>>=◌, Ends, Returns, returned, threw, >>=-Ends, attempt-Ends, Ends-map}
use distributed_wbpp.Measure.{
  Analyzer, State, Row, Cluster, lift, row_at, attach_rows, add_counts, measure_some, join_rows,
  join, send_some, measure_share, measure_lanes, measurements, workers_or_one,
  distribute_measurements, compute_descriptors,
}
use distributed_wbpp.Metrics.{Descriptor, build_descriptor}

-- WBPP's own measurement returns with every item measured, a descriptor that is set and not failed measures
-- its item, and
-- no call takes measurements away.
pub record IsMeasuring {W : Type 0} (J : Number) (A : Analyzer J W) (Has : W → A.Item → Type 0)
    : Type 0 where
  pub measure :
      (items : List A.Item) (w : W)
      → Returns (λ _ v. All (Has v) items × ((i : A.Item) → Has w i → Has v i)) (A.measure items w)
  pub set_descriptor :
      (c : A.Item) (d : Descriptor J.N) (w : W)
      → d.failed ≡ false
      → Ends
          (λ _ v. Has v c × ((i : A.Item) → Has w i → Has v i))
          (λ v. (i : A.Item) → Has w i → Has v i)
          (A.set_descriptor c d w)
  pub make_temp_dir : (w : W) (i : A.Item) → Has w i → Has (A.make_temp_dir w).1 i
  pub send :
      (fs : List Text) (dir : Text) (w : W) (i : A.Item) → Has w i → Has (A.send fs dir w).1 i
  pub wait : (h : A.Handle) (w : W) (i : A.Item) → Has w i → Has (A.wait h w).1 i

module _ {W : Type 0} (J : Number) (A : Analyzer J W) (Has : W → A.Item → Type 0)
    (M : IsMeasuring J A Has) where
  abbrev Grows : W → W → Type 0
  Grows v w = (i : A.Item) → Has v i → Has w i

  abbrev Have : List A.Item → State J A → Type 0
  Have items t = All (Has t.world) items

  still :
      (items : List A.Item) (s t : State J A) → Grows s.world t.world → Have items s → Have items t
  still items s t g h = All-map {P = Has s.world} {Q = Has t.world} g items h

  lift-Ends :
      {B : Type 0} {P : B → W → Type 0} {E : W → Type 0} (m : W → Outcome B × W) (s : State J A)
      → Ends P E (m s.world)
      → Ends (λ b t. P b t.world) (λ t. E t.world) (lift J A m s)
  unfolding lift
  lift-Ends {B} {P} {E} m s h = go (m s.world) h
    where
      go :
          (r : Outcome B × W)
          → Ends P E r
          → Ends (λ b t. P b t.world) (λ t. E t.world) (r.0, record s { world = r.1 })
      go _ (returned k) = returned k
      go _ (threw k) = threw k

  -- A call of which only that it keeps what is measured is known.
  keeping :
      {B : Type 0} (m : W → Outcome B × W) (s : State J A)
      → ((i : A.Item) → Has s.world i → Has (m s.world).1 i)
      → Ends (λ _ t. Grows s.world t.world) (λ t. Grows s.world t.world) (lift J A m s)
  unfolding lift
  keeping {B} m s h = go (m s.world) h
    where
      go :
          (r : Outcome B × W)
          → ((i : A.Item) → Has s.world i → Has r.1 i)
          → Ends
              (λ _ t. Grows s.world t.world)
              (λ t. Grows s.world t.world)
              (r.0, record s { world = r.1 })
      go (ok b, w) k = returned k
      go (throw e, w) k = threw k

  -- A measurement on the server, with its counts added.
  measured :
      (items : List A.Item) (s : State J A)
      → Returns
          (λ _ t. Have items t × Grows s.world t.world)
          ((lift J A (A.measure items) >>= λ r. add_counts J A r) s)
  measured items s =
      >>=-Ends _ (lift-Ends (A.measure items) s (M.measure items s.world)) (λ r t h. returned h)

  some_lem :
      (items : List A.Item) (s : State J A)
      → Returns (λ _ t. Have items t × Grows s.world t.world) (measure_some J A items s)
  unfolding measure_some
  some_lem [] s = returned (tt, λ i h. h)
  some_lem (c ∷ cs) s = measured (c ∷ cs) s

  -- Where what is left over gets its measurements, all of the frames have theirs.
  abbrev Covers : List A.Item → List A.Item → State J A → Type 0
  Covers left items t = (u : State J A) → Grows t.world u.world → Have left u → Have items u

  attach_rows_lem :
      (rows : List (Text × Option (Row J A))) (cs : List A.Item) (s : State J A)
      → Ends
          (λ left t. Covers left cs t × Grows s.world t.world)
          (λ t. Grows s.world t.world)
          (attach_rows J A rows cs s)
  unfolding attach_rows build_descriptor
  attach_rows_lem rows [] s = returned ((λ u g h. tt), λ i h. h)
  attach_rows_lem rows (c ∷ cs) s =
      let d =
        build_descriptor J A.is_finite (row_at J A (A.base_of (A.current c)) rows) (A.current c) in
      elim (Bool-cases d.failed) [
        | inl e ↦
            rw (e, attach_rows)
              (>>=-Ends _ (attach_rows_lem rows cs s)
                (λ left t (cover, g). returned ((λ u k (h, hs). (h, cover u k hs)), g)))
        | inr e ↦
            rw (e, attach_rows)
              (>>=-Ends _ (lift-Ends (A.set_descriptor c d) s (M.set_descriptor c d s.world e))
                (λ _ t (has, g).
                  Ends-map
                    (λ left u (cover, k).
                      ((λ v l hs. (l c (k c has), cover v l hs)), λ i h. k i (g i h)))
                    (λ u k i h. k i (g i h))
                    (attach_rows_lem rows cs (record t { measured = t.measured + 1 }))))
      ]

  -- What a later call keeps is kept from the beginning.
  since :
      {B : Type 0} {P : B → State J A → Type 0} {v w : W} {r : Outcome B × State J A}
      → Grows v w
      → Ends (λ b u. P b u × Grows w u.world) (λ u. Grows w u.world) r
      → Ends (λ b u. P b u × Grows v u.world) (λ u. Grows v u.world) r
  since g (returned (p, k)) = returned (p, λ i h. k i (g i h))
  since g (threw k) = threw (λ i h. k i (g i h))

  returns :
      {B : Type 0} {P : B → State J A → Type 0} {E : State J A → Type 0} {r : Outcome B × State J A}
      → Returns P r
      → Ends P E r
  returns (returned p) = returned p
  returns (threw never) = absurd never

  -- What is left over after the rows is measured.
  covered :
      (left cs : List A.Item) (t : State J A)
      → Covers left cs t
      → Ends
          (λ _ u. Have cs u × Grows t.world u.world)
          (λ u. Grows t.world u.world)
          (measure_some J A left t)
  covered left cs t cover = returns (
      Ends-map {F = λ _. ⊥} (λ _ u (have, k). (cover u k have, k)) (λ u never. never)
        (some_lem left t))

  join_rows_lem :
      (h : A.Handle) (cs : List A.Item) (s : State J A)
      → Ends
          (λ _ t. Have cs t × Grows s.world t.world)
          (λ t. Grows s.world t.world)
          (join_rows J A h cs s)
  unfolding join_rows
  join_rows_lem h cs s = >>=-Ends _ (keeping (A.wait h) s (M.wait h s.world)) (λ report t g.
      since g (
        >>=-Ends _ (attach_rows_lem _ cs (record t { elapsed_ms = report.elapsed_ms }))
          (λ left u (cover, k). since k (covered left cs u cover))))

  -- There is a handle if there is a frame for the cluster.
  abbrev Sent : List A.Item → Option A.Handle → Type 0
  Sent [] h = Unit
  Sent (c ∷ cs) none = ⊥
  Sent (c ∷ cs) (some h) = Unit

  send_lem :
      (cs : List A.Item) (dir : Text) (s : State J A)
      → Ends
          (λ h t. Sent cs h × Grows s.world t.world)
          (λ t. Grows s.world t.world)
          (send_some J A cs dir s)
  unfolding send_some
  send_lem [] dir s = returned (tt, λ i h. h)
  send_lem (c ∷ cs) dir s =
      >>=-Ends _ (keeping (A.send _ dir) s (M.send _ dir s.world)) (λ h t g. returned (tt, g))

  join_lem :
      (h : Option A.Handle) (cs : List A.Item) (s : State J A)
      → Sent cs h
      → Returns (λ _ t. Have cs t × Grows s.world t.world) (join J A h cs s)
  unfolding join
  join_lem none [] s sent = returned (tt, λ i h. h)
  join_lem none (c ∷ cs) s sent = absurd sent
  join_lem (some h) cs s sent = attempt-Ends _ (join_rows_lem h cs s) (λ e t g.
      Ends-map {F = λ _. ⊥} (λ _ u (have, k). (have, λ i p. k i (g i p))) (λ u never. never)
        (measured cs t))

  share_lem :
      (items : List A.Item) (s : State J A)
      → Returns (λ _ t. Have items t × Grows s.world t.world) (measure_share J A items s)
  unfolding measure_share
  share_lem [] s = returned (tt, λ i h. h)
  share_lem (c ∷ cs) s = lift-Ends (A.measure (c ∷ cs)) s (M.measure (c ∷ cs) s.world)

  -- Both lanes, if nothing throws: the frames of each are measured.
  lanes_lem :
      (servers clients : List A.Item) (s : State J A)
      → Ends
          (λ _ t. (Have servers t × Have clients t) × Grows s.world t.world)
          (λ t. Grows s.world t.world)
          (measure_lanes J A servers clients s)
  unfolding measure_lanes
  lanes_lem servers clients s =
      >>=-Ends _ (keeping A.make_temp_dir s (M.make_temp_dir s.world)) (λ dir t g. since g (
        >>=-Ends _ (send_lem clients dir t) (λ h u (sent, k). since k (
          >>=-Ends _ (returns (share_lem servers u)) (λ r v (have, l). since l (
            >>=-Ends _ (returns (join_lem h clients v sent))
              (λ _ x (done, m). returned ((still servers v x m have, done), m))))))))

  -- Whatever the cluster sends and whichever call of its throws, the wrapped `computeDescriptors` returns,
  -- and then every frame has measurements, where WBPP's own measurement returns and gives them to the frames it is
  -- called on, a descriptor that is set and that is not failed gives them to its frame (of a failed one
  -- nothing is taken), and no call takes them away.
  pub compute_descriptors_whole :
      (c : Cluster) (items : List A.Item) (s : State J A)
      → Returns (λ _ t. All (Has t.world) items) (compute_descriptors J A c items s)
  unfolding compute_descriptors distribute_measurements
  compute_descriptors_whole c items s =
      attempt-Ends {P = λ _ t. Have items t} {E = λ t. Unit {0}} _ inner (λ e t _. alone t)
    where
      alone : (t : State J A) → Returns (λ _ u. Have items u) (lift J A (A.measure items) t)
      alone t =
          Ends-map {F = λ _. ⊥} (λ _ u (have, _). have) (λ u never. never)
            (lift-Ends (A.measure items) t (M.measure items t.world))

      lanes :
          (t : State J A) (n : Option ℕ)
          → slice_to n items ++ slice_from n items ≡ items
          → Ends
              (λ _ u. Have items u)
              (λ u. Unit {0})
              (measure_lanes J A (slice_to n items) (slice_from n items) t)
      lanes t n same =
          Ends-map {F = λ _. Unit {0}}
            (λ _ u ((have, clients), _).
              subst (λ is. Have is u) same
                (All-append (Has u.world) (slice_to n items) (slice_from n items) have clients))
            (λ u _. tt) (lanes_lem (slice_to n items) (slice_from n items) t)

      inner : Ends (λ _ t. Have items t) (λ t. Unit {0}) (distribute_measurements J A c items s)
      inner = elim (Bool-cases (ltb (length items) 2 || not c.server_works)) [
        | inl e ↦ rw (e, distribute_measurements) (returns (alone s))
        | inr e ↦
            rw (e, distribute_measurements)
              (lanes _ _
                (shares_are_all J s.costs measurements items (workers_or_one c.n_workers)).0)
      ]
