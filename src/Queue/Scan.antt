-- ===== src/Queue/Scan.antt =====
-- A gathering loop takes what it meets up to a boundary.
use distributed_wbpp.Prelude.{◌≡◌, refl, List, [], ◌∷◌}
use distributed_wbpp.Queue.{Operation, Verdict, taken, stopped, passed, scan}

-- `batch` is gathered from `queue`: operations that fulfil `Taken` are taken in order, those that fulfil
-- `Skipped` are left out, and the loop ends with the queue or at one that fulfils `Boundary`.
pub data Gathered (Taken Skipped Boundary : Operation → Type 0)
    : List Operation → List Operation → Type 0 where
  at_end : Gathered Taken Skipped Boundary [] []
  at_boundary :
      {op : Operation} {ops : List Operation}
      → Boundary op
      → Gathered Taken Skipped Boundary (op ∷ ops) []
  take_one :
      {op : Operation} {ops batch : List Operation}
      → Taken op
      → Gathered Taken Skipped Boundary ops batch
      → Gathered Taken Skipped Boundary (op ∷ ops) (op ∷ batch)
  skip_one :
      {op : Operation} {ops batch : List Operation}
      → Skipped op
      → Gathered Taken Skipped Boundary ops batch
      → Gathered Taken Skipped Boundary (op ∷ ops) batch

module _ (Taken Skipped Boundary : Operation → Type 0) (verdict : Operation → Verdict)
    (if_taken : (op : Operation) → verdict op ≡ taken → Taken op)
    (if_stopped : (op : Operation) → verdict op ≡ stopped → Boundary op)
    (if_passed : (op : Operation) → verdict op ≡ passed → Skipped op) where
  pub scan-Gathered :
      (queue : List Operation) → Gathered Taken Skipped Boundary queue (scan verdict queue)
  unfolding scan
  scan-Gathered [] = at_end
  scan-Gathered (op ∷ ops) = go (verdict op) refl (scan-Gathered ops)
    where
      go :
          (v : Verdict)
          → verdict op ≡ v
          → Gathered Taken Skipped Boundary ops (scan verdict ops)
          → Gathered Taken Skipped Boundary (op ∷ ops) (scan verdict (op ∷ ops))
      go taken e g = rw (e, scan) (take_one (if_taken op e) g)
      go stopped e g = rw (e, scan) (at_boundary (if_stopped op e))
      go passed e g = rw (e, scan) (skip_one (if_passed op e) g)
