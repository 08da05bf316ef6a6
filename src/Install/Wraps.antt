-- ===== src/Install/Wraps.antt =====
-- What the wraps of pjsr/lib/WBPPShim.js do to the operations that WBPP adds afterwards.
use distributed_wbpp.Prelude.{
  ◌≡◌, refl, sym, subst, inl, inr, ◌++◌, Bool, true, false, ◌||◌, Option, some, List, [], ◌∷◌, Text,
  text, arith, if◌then◌else◌, same_text, same_text_iff, has_text, Bool-cases,
}
use distributed_wbpp.Queue.{has_prefix}
use distributed_wbpp.Queue.Batches.{has_prefix_iff}
use distributed_wbpp.Install.{
  integrations, ln_references, drizzles, Run, captured, batched, noted, Operation, Wrap,
  distributes, batches, is_of, is_distributed, wrap_all,
}

-- The wraps of all kinds, as they are installed one after the other.
abbrev pub all_wraps : List Text → List Wrap
all_wraps enabled =
    batches drizzles ∷ batches ln_references ∷ batches integrations ∷ distributes enabled ∷ []

-- The run that an operation is to have: a batch for the three kinds of whole jobs, the distribution for
-- what it is enabled for, the note for the measurements, and WBPP's own for every other.
abbrev pub run_of : List Text → Operation → Run
run_of enabled op =
    if is_of integrations op
    then batched integrations op.run
    else if is_of ln_references op
    then batched ln_references op.run
    else if is_of drizzles op
    then batched drizzles op.run
    else if is_distributed enabled op
    then captured op.run
    else if same_text op.name (text "Measurements")
    then noted op.run
    else op.run

-- Whether one of the wraps of a batch is for an operation of this name.
abbrev is_batch_name : Text → Bool
is_batch_name n =
    has_prefix (text "Drizzle Integration") n
    || (same_text n (text "LN reference generation") || same_text n (text "Integration"))

-- A fact about the three kinds of names holds of a name of a batch.
by_name :
    (P : Text → Type 0)
    → ((rest : Text) → P (text "Drizzle Integration" ++ rest))
    → P (text "LN reference generation")
    → P (text "Integration")
    → (n : Text) → is_batch_name n ≡ true
    → P n
by_name P drizzle reference integration n h =
    elim (Bool-cases (has_prefix (text "Drizzle Integration") n)) [
      | inl e ↦
          let (rest, same) = (has_prefix_iff (text "Drizzle Integration") n).0 e in
          subst P same (drizzle rest)
      | inr e ↦ elim (Bool-cases (same_text n (text "LN reference generation"))) [
        | inl k ↦ subst P (sym ((same_text_iff n (text "LN reference generation")).0 k)) reference
        | inr k ↦
            let l : same_text n (text "Integration") ≡ true = ground (arith, h, e, k) in
            subst P (sym ((same_text_iff n (text "Integration")).0 l)) integration
      ]
    ]

abbrev op_named : Text → Bool → Run → Option Run → Operation
op_named n g r o = record { name = n; has_group = g; run = r; orig_run = o }

-- `__origRun` of an operation that a batch may take over.
abbrev pub orig_of : Operation → Option Run
orig_of op =
    if is_of integrations op || (is_of ln_references op || is_of drizzles op)
    then some op.run
    else op.orig_run

abbrev Wrapped : List Text → Operation → Type 0
Wrapped enabled op =
    wrap_all (all_wraps enabled) op ≡ record op { run = run_of enabled op; orig_run = orig_of op }

batch_named :
    (enabled : List Text) (g : Bool) (r : Run) (o : Option Run) (n : Text)
    → is_batch_name n ≡ true
    → Wrapped enabled (op_named n g r o)
unfolding wrap_all same_text has_prefix has_text
batch_named enabled true r o =
    by_name (λ n. Wrapped enabled (op_named n true r o)) (λ rest. refl) refl refl
batch_named enabled false r o =
    by_name (λ n. Wrapped enabled (op_named n false r o)) (λ rest. refl) refl refl

other_named :
    (enabled : List Text) (g : Bool) (r : Run) (o : Option Run) (n : Text)
    → is_batch_name n ≡ false
    → Wrapped enabled (op_named n g r o)
unfolding wrap_all is_distributed
other_named enabled g r o n h =
    let a : has_prefix (text "Drizzle Integration") n ≡ false = ground (arith, h) in
    let b : same_text n (text "LN reference generation") ≡ false = ground (arith, h) in
    let c : same_text n (text "Integration") ≡ false = ground (arith, h) in
    rw (a, b, c) (ground arith)

-- The wraps of all kinds give each operation that is added the run that it is to have, with its own run
-- inside, which is also kept as `__origRun` where a batch may take it over: no operation is wrapped twice.
pub wrap_all_lem :
    (enabled : List Text) (op : Operation)
    → wrap_all (all_wraps enabled) op ≡ record op { run = run_of enabled op; orig_run = orig_of op }
wrap_all_lem enabled op = elim (Bool-cases (is_batch_name op.name)) [
  | inl e ↦ batch_named enabled op.has_group op.run op.orig_run op.name e
  | inr e ↦ other_named enabled op.has_group op.run op.orig_run op.name e
]
