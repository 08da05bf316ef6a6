-- ===== src/Install/Reasons.antt =====
-- When installShim of pjsr/lib/WBPPShim.js is active, and what it leaves alone otherwise.
use distributed_wbpp.Prelude.{
  ◌≡◌, ◌≤◌, refl, ◌⊎◌, inl, inr, ◌++◌, true, List, Text, text, Outcome, arith, length, has_text,
  Bool-cases, ltb,
}
use distributed_wbpp.Install.{
  Engine, Options, Bridge, Status, active, inactive, wrap_engine, install_shim, compatible, or_all,
  at_least_one, found_workers,
}

-- The installation is enabled, WBPP's version is known, and `bridge.workers()` gives as many workers as are
-- asked for, at least one.
abbrev pub IsActive : Options → Text → Outcome (List Text) → Type 0
IsActive o version workers =
    (o.enabled ≡ true)
    × (has_text compatible version ≡ true)
    × (at_least_one o.min_workers ≤ length (found_workers workers))

-- What an active installation returns, with the bridge and the engine that it leaves.
abbrev pub installed : Options → Outcome (List Text) → Engine → Status × Bridge × Engine
installed o workers e = (
  active (length (found_workers workers)) (or_all o.operations),
  record {
    n_workers = length (found_workers workers);
    worker_list = found_workers workers;
    server_works = o.server_works;
  },
  wrap_engine o e,
)

-- The installation is active exactly if it is enabled, WBPP's version is known and `bridge.workers()` gives
-- as many workers as are asked for, at least one; then the bridge keeps them and the engine is wrapped. Else
-- it says why, and the bridge and the engine stay as they are.
pub install_shim_cases :
    (o : Options) (version : Text) (workers : Outcome (List Text)) (b : Bridge) (e : Engine)
    → (IsActive o version workers × (install_shim o version workers b e ≡ installed o workers e))
      ⊎ ((¬ IsActive o version workers)
          × ((reason : Text) × (install_shim o version workers b e ≡ (inactive reason, b, e))))
unfolding install_shim
install_shim_cases o version workers b e = elim (Bool-cases o.enabled) [
  | inr off ↦
      rw off (inr ((λ (h, _, _). absurd (ground (arith, h))), (text "disabled by user", refl)))
  | inl on ↦ elim (Bool-cases (has_text compatible version)) [
    | inr old ↦
        rw (on, old)
          (inr (
            (λ (_, h, _). absurd (ground (arith, h))),
            (text "unsupported WBPP version " ++ version, refl),
          ))
    | inl known ↦
        elim (Bool-cases (ltb (length (found_workers workers)) (at_least_one o.min_workers))) [
          | inl few ↦
              rw (on, known, few)
                (inr (
                  (λ (_, _, h). absurd (ground (arith, h, few))),
                  (text "no workers discovered", refl),
                ))
          | inr enough ↦ rw (on, known, enough) (inl ((refl, refl, ground (arith, enough)), refl))
        ]
  ]
]
