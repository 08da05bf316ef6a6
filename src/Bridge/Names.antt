-- ===== src/Bridge/Names.antt =====
-- The names of the request and response files that pjsr/lib/SidecarBridge.js makes with `_tmp`.
use distributed_wbpp.Prelude.{
  ℕ, zero, suc, ◌+◌, ◌-◌, ◌*◌, ◌/◌, ◌%◌, ◌<◌, ◌≡◌, ◌≢◌, refl, sym, ◌∙◌, ap, inl, inr, List, [], ◌∷◌,
  ◌++◌, Text, text, arith, ltb, Bool-cases, All, All-map,
}
use distributed_wbpp.Bridge.{System}
use distributed_wbpp.Bridge.Pulling.{digits, decimal, Session, Setting, temp_name, tmp}

-- The number that digits write, after those that were read.
abbrev value : ℕ → Text → ℕ
value n [] = n
value n (c ∷ s) = value (n * 10 + (c - 48)) s

digits-value :
    (fuel n : ℕ) (written : Text) → n < fuel → value 0 (digits fuel n written) ≡ value n written
digits-value zero n written h = absurd (omega arith)
digits-value (suc fuel) n written h = elim (Bool-cases (ltb n 10)) [
  | inl e ↦
      let same : 0 * 10 + (48 + n - 48) ≡ n = omega arith in rw e (ap (λ m. value m written) same)
  | inr e ↦
      let less : n / 10 < fuel = ground (arith, e) in
      let same : (n / 10) * 10 + (48 + n % 10 - 48) ≡ n = omega arith in
      rw e
        (digits-value fuel (n / 10) ((48 + n % 10) ∷ written) less ∙ ap (λ m. value m written) same)
]

decimal-value : (n : ℕ) → value 0 (decimal n) ≡ n
unfolding decimal
decimal-value n = digits-value (suc n) n [] (omega arith)

-- None is a dash.
abbrev IsDashless : Text → Type 0
IsDashless s = All (λ c. c ≢ 45) s

digits-IsDashless :
    (fuel n : ℕ) (written : Text) → IsDashless written → IsDashless (digits fuel n written)
digits-IsDashless zero n written h = h
digits-IsDashless (suc fuel) n written h = elim (Bool-cases (ltb n 10)) [
  | inl e ↦ rw e ((λ k. absurd (omega arith)), h)
  | inr e ↦
      rw e
        (digits-IsDashless fuel (n / 10) ((48 + n % 10) ∷ written) ((λ k. absurd (omega arith)), h))
]

decimal-IsDashless : (n : ℕ) → IsDashless (decimal n)
unfolding decimal
decimal-IsDashless n = digits-IsDashless (suc n) n [] tt

-- What is before the first dash.
until_dash :
    (s t : Text) (x y : Text) → IsDashless s → IsDashless t → s ++ 45 ∷ x ≡ t ++ 45 ∷ y → s ≡ t
until_dash [] [] x y h k e = refl
until_dash [] (c ∷ t) x y h (k, _) e = absurd (k (cc))
until_dash (c ∷ s) [] x y (h, _) k e = absurd (h (cc))
until_dash (c ∷ s) (d ∷ t) x y (_, h) (_, k) e =
    let same : c ≡ d = cc in
    let rest : s ++ 45 ∷ x ≡ t ++ 45 ∷ y = cc in rw (same, until_dash s t x y h k rest) refl

after_prefix : (p s t : Text) → p ++ s ≡ p ++ t → s ≡ t
after_prefix [] s t e = e
after_prefix (c ∷ p) s t e = after_prefix p s t (cc)

temp_name-seq : (c : Setting) (n m : Text) (i j : ℕ) → temp_name c n i ≡ temp_name c m j → i ≡ j
unfolding temp_name
temp_name-seq c n m i j e =
    let a = after_prefix c.temp_dir _ _ e in
    let b = after_prefix (text "/wbpp-") _ _ a in
    let d = after_prefix c.session _ _ b in
    let f = after_prefix (text "-") _ _ d in
    let same =
      until_dash (decimal i) (decimal j) n m (decimal-IsDashless i) (decimal-IsDashless j) f in
    sym (decimal-value i) ∙ (ap (value 0) same ∙ decimal-value j)

-- All different.
abbrev pub Distinct : List Text → Type 0
Distinct [] = Unit
Distinct (p ∷ ps) = All (λ q. q ≢ p) ps × Distinct ps

module _ {W : Type 0} (Y : System W) (c : Setting) where
  -- The names that a bridge has given, the last one first, and whatever else happens to the files in between.
  pub data Given (w : W) (seq : ℕ) : List Text → Session W → Type 0 where
    begun : Given w seq [] (record { seq = seq; world = w })
    named :
        {ps : List Text} {s : Session W} (name : Text)
        → Given w seq ps s
        → Given w seq (temp_name c name s.seq ∷ ps) (tmp Y c name s).1
    elsewhere :
        {ps : List Text} {s : Session W} (v : W)
        → Given w seq ps s
        → Given w seq ps (record s { world = v })

  -- A name that was given before the counter was here.
  abbrev IsBefore : ℕ → Text → Type 0
  IsBefore n p = (name : Text) × (i : ℕ) × (p ≡ temp_name c name i) × (i < n)

  later : (n : ℕ) (p : Text) → IsBefore n p → IsBefore (n + 1) p
  later n p (name, i, e, h) = (name, i, e, omega arith)

  apart : (n : ℕ) (name p : Text) → IsBefore n p → p ≢ temp_name c name n
  apart n name p (other, i, e, h) same =
      let k = temp_name-seq c other name i n (sym e ∙ same) in absurd (omega arith)

  given-IsBefore :
      {w : W} {seq : ℕ} {ps : List Text} {s : Session W}
      → Given w seq ps s
      → All (IsBefore s.seq) ps × Distinct ps
  unfolding tmp
  given-IsBefore begun = (tt, tt)
  given-IsBefore (named {ps} {s} name r) =
      let (h, d) = given-IsBefore r in
      (
        ((name, s.seq, refl, omega arith), All-map (later s.seq) ps h),
        (All-map (apart s.seq name) ps h, d),
      )
  given-IsBefore (elsewhere v r) = given-IsBefore r

  -- The file names that `_tmp` gives in a session are all different, whatever names they are asked for with
  -- and whatever else happens to the files: no response is read in the place of another.
  pub Given-Distinct :
      {w : W} {seq : ℕ} {ps : List Text} {s : Session W} → Given w seq ps s → Distinct ps
  Given-Distinct r = (given-IsBefore r).1
