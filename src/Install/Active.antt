-- ===== src/Install/Active.antt =====
-- What installShim of pjsr/lib/WBPPShim.js makes of WBPP's engine, once and twice.
use distributed_wbpp.Prelude.{
  ◌≡◌, refl, ◌∙◌, ap, inl, inr, ◌++◌, Bool, true, false, ◌||◌, Option, none, some, List, [], ◌∷◌,
  Text, arith, if◌then◌else◌, Bool-cases,
}
use distributed_wbpp.Install.{
  Batch, integrations, ln_references, drizzles, Operation, Queue, Engine, Options, wrap_queue,
  wrap_batches, wrap_engine, add_operation, or_all, same_batch,
}
use distributed_wbpp.Install.Wraps.{run_of, orig_of, wrap_all_lem}

-- A queue that nothing has wrapped.
abbrev pub fresh : List Operation → Queue
fresh ops = record {
  cluster_wrapped = false;
  batch_wrapped = λ b. false;
  wraps = [];
  operations = ops;
}

-- The queue of an engine, with an operation added.
abbrev pub added : Operation → Engine → List Operation
added op e = elim (e.queue) [ none ↦ [] | some q ↦ (add_operation op q).operations ]

-- What the wraps make of a queue.
abbrev wrap_queues : Bool → List Text → Queue → Queue
wrap_queues false names q = wrap_queue names q
wrap_queues true names q =
    wrap_batches drizzles
      (wrap_batches ln_references (wrap_batches integrations (wrap_queue names q)))

abbrev AllWrapped : Queue → Type 0
AllWrapped q =
    (q.cluster_wrapped ≡ true)
    × (q.batch_wrapped integrations ≡ true)
    × (q.batch_wrapped ln_references ≡ true)
    × (q.batch_wrapped drizzles ≡ true)

queue_once : (names : List Text) (q : Queue) → (wrap_queue names q).cluster_wrapped ≡ true
unfolding wrap_queue
queue_once names q = ground arith

queue_again : (names : List Text) (q : Queue) → q.cluster_wrapped ≡ true → wrap_queue names q ≡ q
unfolding wrap_queue
queue_again names q h = rw h refl

batches_again : (b : Batch) (q : Queue) → q.batch_wrapped b ≡ true → wrap_batches b q ≡ q
unfolding wrap_batches
batches_again b q h = rw h refl

batches_keep_cluster :
    (b : Batch) (q : Queue) → (wrap_batches b q).cluster_wrapped ≡ q.cluster_wrapped
unfolding wrap_batches
batches_keep_cluster b q = ground arith

batches_once : (b : Batch) (q : Queue) → (wrap_batches b q).batch_wrapped b ≡ true
unfolding wrap_batches
batches_once integrations q = ground arith
batches_once ln_references q = ground arith
batches_once drizzles q = ground arith

batches_keep :
    (b c : Batch) (q : Queue) → q.batch_wrapped c ≡ true → (wrap_batches b q).batch_wrapped c ≡ true
unfolding wrap_batches
batches_keep b c q h = elim (Bool-cases (q.batch_wrapped b)) [
  | inl e ↦ rw e h
  | inr e ↦ rw (e, h) (kept b c)
]
  where
    kept : (b c : Batch) → (if same_batch b c then true else true) ≡ true
    kept b c = ground arith

all_once : (names : List Text) (q : Queue) → AllWrapped (wrap_queues true names q)
all_once names q =
    let q0 = wrap_queue names q in
    let q1 = wrap_batches integrations q0 in
    let q2 = wrap_batches ln_references q1 in
    (
      batches_keep_cluster drizzles q2
          ∙ (batches_keep_cluster ln_references q1
              ∙ (batches_keep_cluster integrations q0 ∙ queue_once names q)),
      batches_keep drizzles integrations q2
          (batches_keep ln_references integrations q1 (batches_once integrations q0)),
      batches_keep drizzles ln_references q2 (batches_once ln_references q1),
      batches_once drizzles q2,
    )

all_again : (names : List Text) (q : Queue) → AllWrapped q → wrap_queues true names q ≡ q
all_again names q (c, i, l, d) =
    rw (queue_again names q c, batches_again integrations q i, batches_again ln_references q l)
      (batches_again drizzles q d)

queues_twice :
    (calib : Bool) (names : List Text) (q : Queue)
    → wrap_queues calib names (wrap_queues calib names q) ≡ wrap_queues calib names q
queues_twice false names q = queue_again names (wrap_queue names q) (queue_once names q)
queues_twice true names q = all_again names (wrap_queues true names q) (all_once names q)

abbrev measured : Bool → Bool → Bool → Bool
measured false a m = m
measured true a m = m || a

abbrev on_some : (Queue → Queue) → Option Queue → Option Queue
on_some f none = none
on_some f (some q) = some (f q)

-- What installShim makes of an engine.
abbrev engine_after : Bool → Bool → List Text → Engine → Engine
engine_after calib measure names e = record {
  queue = on_some (wrap_queues calib names) e.queue;
  has_analyzer = e.has_analyzer;
  measure_wrapped = measured measure e.has_analyzer e.measure_wrapped;
}

engine_lem :
    (o : Options) (q : Option Queue) (a m : Bool) (calib measure : Bool)
    → let o' = record o { calib_integration = calib; measurements = measure } in
      let e : Engine = record { queue = q; has_analyzer = a; measure_wrapped = m } in
      wrap_engine o' e ≡ engine_after calib measure (or_all o.operations) e
unfolding wrap_engine
engine_lem o none a m true true = ground arith
engine_lem o none a m true false = refl
engine_lem o none a m false true = ground arith
engine_lem o none a m false false = refl
engine_lem o (some q) a m true true = ground arith
engine_lem o (some q) a m true false = refl
engine_lem o (some q) a m false true = ground arith
engine_lem o (some q) a m false false = refl

after_twice :
    (calib measure : Bool) (names : List Text) (q : Option Queue) (a m : Bool)
    → let e : Engine = record { queue = q; has_analyzer = a; measure_wrapped = m } in
      engine_after calib measure names (engine_after calib measure names e)
      ≡ engine_after calib measure names e
after_twice calib measure names none a m = ground arith
after_twice calib measure names (some q) a m = rw (queues_twice calib names q) (ground arith)

-- To install twice is to install once: an operation that is added later is not wrapped a second time.
pub wrap_engine_twice :
    (o : Options) (e : Engine) → wrap_engine o (wrap_engine o e) ≡ wrap_engine o e
wrap_engine_twice o e =
    let once : (d : Engine)
        → wrap_engine o d
          ≡ engine_after o.calib_integration o.measurements (or_all o.operations) d =
      λ d.
        engine_lem o d.queue d.has_analyzer d.measure_wrapped o.calib_integration o.measurements in
    rw (once e, once (engine_after o.calib_integration o.measurements (or_all o.operations) e))
      (after_twice o.calib_integration o.measurements (or_all o.operations) e.queue e.has_analyzer
        e.measure_wrapped)

added_lem :
    (names : List Text) (ops : List Operation) (op : Operation)
    → (add_operation op (wrap_queues true names (fresh ops))).operations
      ≡ ops ++ record op { run = run_of names op; orig_run = orig_of op } ∷ []
unfolding add_operation wrap_queue wrap_batches
added_lem names ops op = ap (λ z. ops ++ z ∷ []) (wrap_all_lem names op)

-- An operation that is added to a queue that nothing had wrapped before the installation, all wraps asked
-- for, gets exactly the run that its name and its group ask for, around its own one, and the operations
-- before it stay; a second installation changes nothing of this.
pub installed_operation :
    (o : Options) (ops : List Operation) (a m : Bool) (op : Operation)
    → o.calib_integration ≡ true
    → let e =
        wrap_engine o
          (record { queue = some (fresh ops); has_analyzer = a; measure_wrapped = m }) in
      let op' = record op { run = run_of (or_all o.operations) op; orig_run = orig_of op } in
      (added op e ≡ ops ++ op' ∷ []) × (added op (wrap_engine o e) ≡ ops ++ op' ∷ [])
installed_operation o ops a m op h =
    let e =
      wrap_engine o (record { queue = some (fresh ops); has_analyzer = a; measure_wrapped = m }) in
    let once : added op e
        ≡ ops ++ record op { run = run_of (or_all o.operations) op; orig_run = orig_of op } ∷ [] =
      ap (added op) (engine_lem o (some (fresh ops)) a m o.calib_integration o.measurements)
      ∙ rw h (added_lem (or_all o.operations) ops op) in
    (
      once,
      ap (added op) (
            wrap_engine_twice o
              (record { queue = some (fresh ops); has_analyzer = a; measure_wrapped = m }))
          ∙ once,
    )
