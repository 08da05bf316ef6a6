-- ===== src/Examples/Batches.antt =====
-- The batches, the assignment of machines and the capture of pjsr/lib/WBPPShim.js, on small inputs.
use distributed_wbpp.Prelude.{
  ℕ, ◌+◌, ◌≤◌, ◌≡◌, Bool, true, false, none, some, List, [], ◌∷◌, ◌++◌, map, Text, text, ok, arith,
  All, length, drop, keep, ◌==◌,
}
use mathlib.Core.List.{Perm}
use distributed_wbpp.Machines.{assign_machines}
use distributed_wbpp.Machines.Order.{IsDescending}
use distributed_wbpp.Machines.Balance.{assign_machines_lem, assign_machines_balanced}
use distributed_wbpp.Machines.Picking.{load_at, frames_of, weight}
use distributed_wbpp.Capture.{
  Native, finish, fail, add, sentinel, Captured, native_container, capture_via_container,
}
use distributed_wbpp.Capture.Laws.{
  adding, added, capture_via_container_exact, capture_via_container_safe,
}
use distributed_wbpp.Queue.{
  light, other_type, Frame, Operation, gather_calib_batch, gather_light_batch,
}
use distributed_wbpp.Queue.Scan.{Gathered}
use distributed_wbpp.Queue.Batches.{
  IsCalibJob, IsLightJob, IsLogBlock, IsBoundary, gather_calib_batch_lem, gather_light_batch_lem,
}

-- An operation is its frame count.
abbrev frames : ℕ → ℕ
frames n = n

abbrev jobs : List ℕ
jobs = 30 ∷ 90 ∷ 50 ∷ 50 ∷ []

assign_machines_lem_example :
    let (assigned, loads) = assign_machines frames jobs 2 in
    let in_order = map (λ b. b.0) assigned in
    Perm in_order jobs
    × IsDescending frames in_order
    × ((n : ℕ) → keep (λ job. frames job == n) in_order ≡ keep (λ job. frames job == n) jobs)
    × All (λ b. b.1 ≤ 2) assigned
    × ((i : ℕ) → load_at loads i ≡ frames_of frames i assigned)
assign_machines_lem_example = assign_machines_lem frames jobs 2

assign_machines_balanced_example :
    let loads = (assign_machines frames jobs 2).1 in
    weight 0 (load_at loads 0) ≤ weight 1 (load_at loads 1) + weight 0 90
assign_machines_balanced_example =
    assign_machines_balanced frames jobs 2 90
      (omega arith, (omega arith, (omega arith, (omega arith, tt)))) 0 1 (omega arith) (omega arith)

abbrev first : ℕ
first = 1

abbrev second : ℕ
second = 2

capture_via_container_exact_example :
    capture_via_container true (adding (first ∷ []) (add second finish (fail sentinel))) 1
    ≡ ok (record {
      captured = some second;
      native_error = none;
      forwarded = first ∷ [];
      container = native_container;
    })
capture_via_container_exact_example = capture_via_container_exact (first ∷ []) second finish

-- A run that adds one process, catches the sentinel and adds another.
abbrev stubborn : Native ℕ
stubborn = add 1 finish (add 2 finish (fail sentinel))

capture_via_container_safe_example :
    (c : Captured ℕ) × (capture_via_container true stubborn 0 ≡ ok c)
    × (c.container ≡ native_container)
    × (length c.forwarded ≤ 0)
    × ((rest : List ℕ) × (c.forwarded ++ rest ≡ added stubborn))
capture_via_container_safe_example = capture_via_container_safe stubborn 0

abbrev on_disk : Text → Bool
on_disk f = true

abbrev frame : Frame
frame = record { current = text "/data/a.xisf"; drizzle_file = none }

abbrev three : List Frame
three = frame ∷ frame ∷ frame ∷ []

abbrev dark_job : Operation
dark_job = record {
  name = text "Integration";
  group = some (record {
    image_type = other_type;
    active_frames = three;
    fast_integration = false;
    master_file = [];
  });
}

abbrev light_job : Operation
light_job = record {
  name = text "Integration";
  group = some (record {
    image_type = light;
    active_frames = three;
    fast_integration = false;
    master_file = text "/data/master.xisf";
  });
}

abbrev log_block : Operation
log_block = record { name = []; group = none }

abbrev queue : List Operation
queue = log_block ∷ dark_job ∷ log_block ∷ dark_job ∷ light_job ∷ []

gather_calib_batch_lem_example :
    Gathered
      (IsCalibJob on_disk)
      IsLogBlock
      (IsBoundary (IsCalibJob on_disk))
      (drop 1 queue)
      (gather_calib_batch on_disk queue 1)
gather_calib_batch_lem_example = gather_calib_batch_lem on_disk queue 1

gather_light_batch_lem_example :
    Gathered
      (IsLightJob on_disk)
      IsLogBlock
      (IsBoundary (IsLightJob on_disk))
      (drop 4 queue)
      (gather_light_batch on_disk queue 4)
gather_light_batch_lem_example = gather_light_batch_lem on_disk queue 4
