-- ===== src/Bridge/Pulling.antt =====
-- The client's calls in pjsr/lib/SidecarBridge.js, pullWork and reportResult, with the file names that `_tmp`
-- gives. The state has the counter `_seq` beside the files.
use distributed_wbpp.Prelude.{
  ℕ, zero, suc, ◌+◌, ◌/◌, ◌%◌, ◌≡◌, refl, ◌↔◌, inl, inr, Bool, true, false, Option, none, some,
  List, [], ◌∷◌, ◌++◌, Text, text, ok, arith, ltb, if◌then◌else◌, is_empty, Bool-cases, ap, subst,
}
use distributed_wbpp.Calls.{Call, pure, ◌>>=◌, ◌>>◌}
use distributed_wbpp.Bridge.{System, remove, consume_json, read_json, run_one_shot}
use distributed_wbpp.Bridge.Files.{read_json_iff}

-- The digits of a number before those that are already written; a number has at most that many digits.
abbrev pub digits : ℕ → ℕ → Text → Text
digits zero n written = written
digits (suc fuel) n written =
    let rest = digits fuel (n / 10) ((48 + n % 10) ∷ written) in
    if ltb n 10 then (48 + n) ∷ written else rest

-- A whole number in a string.
unfoldable pub decimal : ℕ → Text
decimal n = digits (suc n) n []

pub record Session (W : Type 0) : Type 0 where
  pub seq : ℕ
  pub world : W

-- `systemTempDirectory`, `_session` and `controlPort`
pub record Setting : Type 0 where
  pub temp_dir : Text
  pub session : Text
  pub port : Text

unfoldable pub temp_name : Setting → Text → ℕ → Text
temp_name c name seq =
    c.temp_dir
    ++ (text "/wbpp-" ++ (c.session ++ (text "-" ++ (decimal seq ++ (text "-" ++ name)))))

abbrev pub pull_args : Setting → Text → List Text
pull_args c out =
    text "ctl" ∷ text "pull" ∷ text "--control-port" ∷ c.port ∷ text "--out-file" ∷ out ∷ []

abbrev pub result_args : Setting → Text → List Text
result_args c inf =
    text "ctl" ∷ text "result" ∷ text "--control-port" ∷ c.port ∷ text "--in-file" ∷ inf ∷ []

-- `( r && r.job_id ) ? r : null`
abbrev pulled : {J : Type 0} → (J → Text) → Option J → Option J
pulled job_id none = none
pulled job_id (some r) = if is_empty (job_id r) then none else some r

module _ {W : Type 0} (Y : System W) (c : Setting) where
  abbrev on_files : {A : Type 0} → Call W A → Call (Session W) A
  on_files m s = let (a, w) = m s.world in (a, record s { world = w })

  -- `_tmp`: the next name, with an old file of this name removed.
  unfoldable pub tmp : Text → Call (Session W) Text
  tmp name s =
      let path = temp_name c name s.seq in
      (ok path, record { seq = s.seq + 1; world = remove Y path s.world })

  -- pullWork; a job without a `job_id` is one with an empty one.
  unfoldable pub pull_work :
      {J : Type 0} → (Text → Option J) → (J → Text) → Call (Session W) (Option J)
  unfolding tmp
  pull_work parse job_id = do
    out ← tmp (text "pull.json")
    on_files (run_one_shot Y (pull_args c out))
    r ← on_files (λ w. let (r, v) = consume_json Y parse out w in (ok r, v))
    pure (pulled job_id r)

  -- reportResult, with the result's JSON.
  unfoldable pub report_result : Text → Call (Session W) (Unit {0})
  unfolding tmp
  report_result result = do
    inf ← tmp (text "result.json")
    on_files (Y.write_file inf result)
    on_files (run_one_shot Y (result_args c inf))
    on_files (λ w. (ok tt, remove Y inf w))

  pulled_iff :
      {J : Type 0} (job_id : J → Text) (o : Option J) (j : J)
      → (pulled job_id o ≡ some j) ↔ ((o ≡ some j) × (is_empty (job_id j) ≡ false))
  pulled_iff job_id none j = ((λ h. cc), (λ (h, _). cc))
  pulled_iff job_id (some q) j = elim (Bool-cases (is_empty (job_id q))) [
    | inr e ↦ rw e (
      (λ h.
          let same : q ≡ j = cc in (ap some same, subst (λ z. is_empty (job_id z) ≡ false) same e)),
      (λ (h, _). cc),
    )
    | inl e ↦ rw e (
      (λ h. cc),
      (λ (h, k).
          let same : q ≡ j = cc in
          let clash : is_empty (job_id j) ≡ true = subst (λ z. is_empty (job_id z) ≡ true) same e in
          absurd (ground (arith, clash, k))),
    )
  ]

  -- The start of `ctl pull`: whether it started, the process, and the files then.
  abbrev pub pull_start : Session W → Bool × (Y.Process × W)
  pull_start s =
      let out = temp_name c (text "pull.json") s.seq in
      Y.start (pull_args c out) (remove Y out s.world)

  -- A pull gives a job exactly if `ctl pull` starts and, when it has finished, the response file is
  -- there, can be read and parsed, and the job in it has an id.
  pub pull_work_iff :
      {J : Type 0} (parse : Text → Option J) (job_id : J → Text) (s : Session W) (j : J)
      → ((pull_work parse job_id s).0 ≡ ok (some j)) ↔ (
          (t : Text) × ((pull_start s).0 ≡ true)
          × (Y.file_exists
                (temp_name c (text "pull.json") s.seq)
                (Y.finish (pull_start s).1.0 (pull_start s).1.1)
              ≡ true)
          × (Y.read_file
                (temp_name c (text "pull.json") s.seq)
                (Y.finish (pull_start s).1.0 (pull_start s).1.1)
              ≡ ok t)
          × (parse t ≡ some j)
          × (is_empty (job_id j) ≡ false))
  unfolding pull_work run_one_shot consume_json
  pull_work_iff parse job_id s j = elim (Bool-cases (pull_start s).0) [
    | inr e ↦
        rw (e, pull_work, run_one_shot)
          ((λ h. cc), (λ (_, h, _, _, _, _). absurd (ground (arith, h))))
    | inl e ↦
        let out = temp_name c (text "pull.json") s.seq in
        let u = Y.finish (pull_start s).1.0 (pull_start s).1.1 in
        let (to, from) = read_json_iff Y parse out u j in
        let (into, back) = pulled_iff job_id (read_json Y parse out u) j in
        rw (e, pull_work, run_one_shot)
          (
            (λ h.
                let same : pulled job_id (read_json Y parse out u) ≡ some j = cc in
                let (found, id) = into same in
                let (t, a, b, d) = to found in (t, refl, a, b, d, id)),
            (λ (t, _, a, b, d, id). ap ok (back (from (t, a, b, d), id))),
          )
  ]
