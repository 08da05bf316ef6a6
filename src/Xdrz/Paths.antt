-- ===== src/Xdrz/Paths.antt =====
-- baseNameOf of pjsr/lib/WorkerRuntime.js.
use distributed_wbpp.Prelude.{
  ℕ, ◌≡◌, refl, inl, inr, false, none, some, [], ◌∷◌, ◌++◌, Text, arith, All, All-append_right,
  ◌==◌, ==_iff, append_assoc, Bool-cases, Option-cases, subst, sym, ap, ◌∙◌,
}
use distributed_wbpp.Xdrz.{slashes, after_last, base_name, last_or}

abbrev Lacks : ℕ → Text → Type 0
Lacks d s = All (λ c. (c == d) ≡ false) s

slashes-Lacks : (s : Text) → Lacks 92 (slashes s)
unfolding slashes
slashes-Lacks [] = tt
slashes-Lacks (c ∷ s) = (ground arith, slashes-Lacks s)

after_last-none : (s : Text) → after_last s ≡ none → Lacks 47 s
unfolding after_last
after_last-none [] h = tt
after_last-none (c ∷ s) h = elim (Option-cases (after_last s)) [
  | inl e ↦ (ground (arith, h, e), after_last-none s e)
  | inr (t, e) ↦ absurd (ground (arith, h, e))
]

after_last-some :
    (s t : Text) → after_last s ≡ some t → Lacks 47 t × ((p : Text) × (s ≡ p ++ (47 ∷ t)))
unfolding after_last
after_last-some [] t h = cc
after_last-some (c ∷ s) t h = elim (Option-cases (after_last s)) [
  | inl e ↦ elim (Bool-cases (c == 47)) [
    | inl k ↦
        let at = (==_iff c 47).0 k in
        let same : s ≡ t = ground (arith, h, e, k) in
        (subst (λ l. Lacks 47 l) same (after_last-none s e), ([], cc))
    | inr k ↦ absurd (ground (arith, h, e, k))
  ]
  | inr (u, e) ↦
      let same : u ≡ t = ground (arith, h, e) in
      let (l, (p, q)) = after_last-some s u e in
      (subst (λ l. Lacks 47 l) same l, (c ∷ p, ap (λ l. c ∷ l) (q ∙ ap (λ l. p ++ (47 ∷ l)) same)))
]

abbrev IsBase : Text → Text → Type 0
IsBase p b = Lacks 47 b × Lacks 92 b × ((dir : Text) × (slashes p ≡ dir ++ b))

base_name-some : (p t : Text) → after_last (slashes p) ≡ some t → base_name p ≡ t
unfolding base_name
base_name-some p t e = ap (λ o. last_or (slashes p) o) e

base_name-none : (p : Text) → after_last (slashes p) ≡ none → base_name p ≡ slashes p
unfolding base_name
base_name-none p e = ap (λ o. last_or (slashes p) o) e

-- A base name has neither separator in it, and it ends the path, once "\" is "/" in it.
pub base_name_plain :
    (p : Text)
    → All (λ c. (c == 47) ≡ false) (base_name p)
      × All (λ c. (c == 92) ≡ false) (base_name p)
      × ((dir : Text) × (slashes p ≡ dir ++ base_name p))
base_name_plain p = elim (Option-cases (after_last (slashes p))) [
  | inl e ↦
      subst (λ b. IsBase p b) (sym (base_name-none p e))
        (after_last-none (slashes p) e, slashes-Lacks p, ([], refl))
  | inr (t, e) ↦
      let (l, (d, q)) = after_last-some (slashes p) t e in
      let right : Lacks 92 (47 ∷ t) =
        All-append_right (λ c. (c == 92) ≡ false) d (47 ∷ t)
          (subst (λ s. Lacks 92 s) q (slashes-Lacks p)) in
      subst (λ b. IsBase p b) (sym (base_name-some p t e))
        (l, right.1, (d ++ (47 ∷ []), q ∙ sym (append_assoc d (47 ∷ []) t)))
]
