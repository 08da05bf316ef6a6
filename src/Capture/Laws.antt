-- ===== src/Capture/Laws.antt =====
-- What a capture yields, and that it leaves the engine as it was.
use distributed_wbpp.Prelude.{
  ℕ, zero, suc, ◌≤◌, ◌≡◌, refl, ap, true, Option, none, some, List, [], ◌∷◌, ◌++◌, ok, arith,
  length,
}
use distributed_wbpp.Capture.{
  sentinel, Native, finish, fail, add, native_container, decoy, restore, Captured, run_decoy,
  capture_via_container, forward,
}

module _ {P : Type 0} where
  -- A run that adds these processes in turn and then goes on as `rest`; where an add throws, the sentinel
  -- passes through, as it does in WBPP's operations.
  abbrev pub adding : List P → Native P → Native P
  adding [] rest = rest
  adding (p ∷ ps) rest = add p (adding ps rest) (fail sentinel)

  -- The processes that a run adds when no add throws.
  abbrev pub added : Native P → List P
  added finish = []
  added (fail t) = []
  added (add p next thrown) = p ∷ added next

  zero_forwards_none : (c : Option P) (run : Native P) → (run_decoy zero c run).forwarded ≡ []
  unfolding run_decoy
  zero_forwards_none c finish = refl
  zero_forwards_none c (fail t) = refl
  zero_forwards_none c (add p next thrown) = zero_forwards_none (some p) thrown

  run_decoy_forwards :
      (skip : ℕ) (c : Option P) (run : Native P)
      → (length (run_decoy skip c run).forwarded ≤ skip)
        × ((rest : List P) × ((run_decoy skip c run).forwarded ++ rest ≡ added run))
  unfolding run_decoy
  run_decoy_forwards skip c finish = (omega arith, ([], refl))
  run_decoy_forwards skip c (fail t) = (omega arith, ([], refl))
  run_decoy_forwards (suc skip) c (add p next thrown) =
      let (short, (rest, e)) = run_decoy_forwards skip c next in
      (omega arith, (rest, ap (λ ps. p ∷ ps) e))
  run_decoy_forwards zero c (add p next thrown) =
      rw (zero_forwards_none (some p) thrown) (omega arith, (p ∷ added next, refl))

  captured_at :
      (ps : List P) (p : P) (rest : Native P) (c : Option P)
      → run_decoy (length ps) c (adding ps (add p rest (fail sentinel)))
        ≡ record { captured = some p; native_error = none; forwarded = ps; container = decoy }
  unfolding run_decoy
  captured_at [] p rest c = refl
  captured_at (q ∷ ps) p rest c = ap (forward q) (captured_at ps p rest c)

  -- Of a run that adds `ps`, then `p`, then anything, the processes `ps` run natively and `p` is captured
  -- with no error, if as many processes are let through as `ps` has.
  pub capture_via_container_exact :
      (ps : List P) (p : P) (rest : Native P)
      → capture_via_container true (adding ps (add p rest (fail sentinel))) (length ps)
        ≡ ok (record {
          captured = some p;
          native_error = none;
          forwarded = ps;
          container = native_container;
        })
  unfolding capture_via_container
  capture_via_container_exact ps p rest = ap (λ c. ok (restore c)) (captured_at ps p rest none)

  -- Whatever a native run does, also where it catches the sentinel and adds again or throws an error of its
  -- own: the container is the native one afterwards, and at most `skip` processes ran natively, the first
  -- that the run adds.
  pub capture_via_container_safe :
      (run : Native P) (skip : ℕ)
      → (c : Captured P) × (capture_via_container true run skip ≡ ok c)
        × (c.container ≡ native_container)
        × (length c.forwarded ≤ skip)
        × ((rest : List P) × (c.forwarded ++ rest ≡ added run))
  unfolding capture_via_container
  capture_via_container_safe run skip =
      let (short, prefix) = run_decoy_forwards skip none run in
      (restore (run_decoy skip none run), refl, refl, short, prefix)
