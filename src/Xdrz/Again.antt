-- ===== src/Xdrz/Again.antt =====
-- Rewriting the paths of a .xdrz in pjsr/lib/WBPPShim.js a second time changes nothing.
use distributed_wbpp.Prelude.{
  ℕ, ◌≡◌, refl, sym, ap, ◌∙◌, inl, inr, false, Option, none, some, [], ◌∷◌, ◌++◌, Text, arith,
  All-append, ◌==◌, ==_iff, Bool-cases, Option-cases, subst,
}
use distributed_wbpp.Xdrz.{
  strip, until_open, close_tag, with_rest, match_close, match_element, element,
}
use distributed_wbpp.Xdrz.Stable.{IsFlat, const, match_none, match_sound, match_element-element}

-- The tag and the content of the new element: nothing in them opens another.
pub record IsTag (n : ℕ) (tag : Text) (x : Text) : Type 0 where
  pub flat : IsFlat (n ∷ tag)
  pub no_slash : (n == 47) ≡ false
  pub content : IsFlat x

module _ (n : ℕ) (t x : Text) (T : IsTag n t x) where
  abbrev pub tag : Text
  tag = n ∷ t

  abbrev pub C : Text → Text
  C s = const tag (element tag x) s

  abbrev opt : Option Text → Option Text
  opt none = none
  opt (some r) = some (C r)

  abbrev opt_pair : Option (Text × Text) → Option (Text × Text)
  opt_pair none = none
  opt_pair (some (a, r)) = some (a, C r)

  pub C_plain : (c : ℕ) (s : Text) → (c == 60) ≡ false → C (c ∷ s) ≡ c ∷ C s
  unfolding const
  C_plain c s h = rw (match_none tag c s h) refl

  pub C_nil : C [] ≡ []
  unfolding const
  C_nil = refl

  abbrev tail : Text → Text
  tail [] = []
  tail (c ∷ s) = s

  C_open : (s : Text) → C (60 ∷ s) ≡ 60 ∷ tail (C (60 ∷ s))
  unfolding const
  C_open s = elim (Option-cases (match_element tag (60 ∷ s))) [
    | inl e ↦ rw e refl
    | inr ((a, z), e) ↦ rw e refl
  ]

  strip_C : (p s : Text) → IsFlat p → strip p (C s) ≡ opt (strip p s)
  unfolding strip
  strip_C [] s h = refl
  strip_C (c ∷ p) [] h = rw C_nil refl
  strip_C (c ∷ p) (d ∷ s) (h, k) = elim (Bool-cases (d == 60)) [
    | inr e ↦ rw (C_plain d s e) (elim (Bool-cases (c == d)) [
      | inl same ↦ rw same (strip_C p s k)
      | inr apart ↦ rw apart refl
    ])
    | inl e ↦
        let at = (==_iff d 60).0 e in
        let f = C_open s in
        subst (λ z. strip (c ∷ p) (C (z ∷ s)) ≡ opt (strip (c ∷ p) (z ∷ s))) (sym at)
          (rw (f, h) refl)
  ]

  until_C : (s : Text) → until_open (C s) ≡ ((until_open s).0, C (until_open s).1)
  unfolding until_open
  until_C [] = rw C_nil refl
  until_C (c ∷ s) = elim (Bool-cases (c == 60)) [
    | inr e ↦ rw (C_plain c s e) (rw (e, until_C s) refl)
    | inl e ↦
        let at = (==_iff c 60).0 e in
        let f = C_open s in
        subst (λ z. until_open (C (z ∷ s)) ≡ ((until_open (z ∷ s)).0, C (until_open (z ∷ s)).1))
          (sym at) (rw f refl)
  ]

  closed-IsFlat : (m : ℕ) (p : Text) → IsFlat (m ∷ p) → IsFlat (47 ∷ ((m ∷ p) ++ (62 ∷ [])))
  closed-IsFlat m p h = (refl, All-append (λ c. (c == 60) ≡ false) (m ∷ p) (62 ∷ []) h (refl, tt))

  at_open :
      (m : ℕ) (p q : Text)
      → IsFlat (m ∷ p)
      → strip (close_tag (m ∷ p)) (C (60 ∷ q)) ≡ opt (strip (close_tag (m ∷ p)) (60 ∷ q))
  unfolding strip const
  at_open m p q h = elim (Option-cases (match_element tag (60 ∷ q))) [
    | inl e ↦ rw e (strip_C (47 ∷ ((m ∷ p) ++ (62 ∷ []))) q (closed-IsFlat m p h))
    | inr ((a, z), e) ↦
        let apart : (47 == n) ≡ false = ground (arith, T.no_slash) in
        let (whole, _) = match_sound tag (60 ∷ q) a z e in
        let begins : q ≡ tail (element tag a ++ z) = ap (λ l. tail l) whole in
        let none_left : strip (47 ∷ ((m ∷ p) ++ (62 ∷ []))) q ≡ none =
          subst (λ l. strip (47 ∷ ((m ∷ p) ++ (62 ∷ []))) l ≡ none) (sym begins) (rw apart refl) in
        rw e (rw (apart, none_left) refl)
  ]

  -- Another element, or the same, is matched after the replacement as before.
  strip_close_C :
      (m : ℕ) (p q : Text)
      → IsFlat (m ∷ p)
      → strip (close_tag (m ∷ p)) (C q) ≡ opt (strip (close_tag (m ∷ p)) q)
  unfolding strip const match_element
  strip_close_C m p [] h = refl
  strip_close_C m p (c ∷ q) h = elim (Bool-cases (c == 60)) [
    | inr e ↦
        let apart : (60 == c) ≡ false = ground (arith, e) in rw (C_plain c q e) (rw apart refl)
    | inl e ↦
        let at = (==_iff c 60).0 e in
        subst (λ z. strip (close_tag (m ∷ p)) (C (z ∷ q)) ≡ opt (strip (close_tag (m ∷ p)) (z ∷ q)))
          (sym at) (at_open m p q h)
  ]

  with_rest_C : (a : Text) (o : Option Text) → with_rest a (opt o) ≡ opt_pair (with_rest a o)
  with_rest_C a none = refl
  with_rest_C a (some r) = refl

  close_C :
      (m : ℕ) (p : Text) (o : Option Text)
      → IsFlat (m ∷ p)
      → match_close (m ∷ p) (opt o) ≡ opt_pair (match_close (m ∷ p) o)
  close_C m p none h = refl
  close_C m p (some r) h =
      ap (λ q. with_rest q.0 (strip (close_tag (m ∷ p)) q.1)) (until_C r)
      ∙ ap (λ o. with_rest (until_open r).0 o) (strip_close_C m p (until_open r).1 h)
      ∙ with_rest_C (until_open r).0 (strip (close_tag (m ∷ p)) (until_open r).1)

  match_C :
      (m : ℕ) (p q : Text)
      → IsFlat (m ∷ p)
      → match_element (m ∷ p) (60 ∷ C q) ≡ opt_pair (match_element (m ∷ p) (60 ∷ q))
  unfolding match_element strip
  match_C m p q h =
      let front : IsFlat ((m ∷ p) ++ (62 ∷ [])) = (closed-IsFlat m p h).1 in
      ap (λ o. match_close (m ∷ p) o) (strip_C ((m ∷ p) ++ (62 ∷ [])) q front)
      ∙ close_C m p (strip ((m ∷ p) ++ (62 ∷ [])) q) h

  pub C_new : (z : Text) → C (element tag x ++ z) ≡ element tag x ++ z
  unfolding const
  C_new z = rw (match_element-element tag x z T.content) refl

  -- One step of the replacement.
  pub C_none : (c : ℕ) (s : Text) → match_element tag (c ∷ s) ≡ none → C (c ∷ s) ≡ c ∷ C s
  unfolding const
  C_none c s e = rw e refl

  pub C_some :
      (c : ℕ) (s a z : Text)
      → match_element tag (c ∷ s) ≡ some (a, z)
      → C (c ∷ s) ≡ element tag x ++ z
  unfolding const
  C_some c s a z e = rw e refl

  -- What begins no element begins none after the replacement.
  pub none_C :
      (m : ℕ) (p : Text) (c : ℕ) (s : Text)
      → IsFlat (m ∷ p)
      → match_element (m ∷ p) (c ∷ s) ≡ none
      → match_element (m ∷ p) (c ∷ C s) ≡ none
  none_C m p c s h e = elim (Bool-cases (c == 60)) [
    | inr k ↦ match_none (m ∷ p) c (C s) k
    | inl k ↦
        let at = (==_iff c 60).0 k in
        subst (λ d. match_element (m ∷ p) (d ∷ C s) ≡ none) (sym at)
          (match_C m p s h
            ∙ ap (λ o. opt_pair o) (subst (λ d. match_element (m ∷ p) (d ∷ s) ≡ none) at e))
  ]

  pub C_again : (s : Text) → C (C s) ≡ C s
  C_again [] = rw C_nil C_nil
  C_again (c ∷ s) = elim (Option-cases (match_element tag (c ∷ s))) [
    | inl e ↦
        ap (λ l. C l) (C_none c s e)
        ∙ C_none c (C s) (none_C n t c s T.flat e)
        ∙ ap (λ l. c ∷ l) (C_again s)
        ∙ sym (C_none c s e)
    | inr ((a, z), e) ↦ ap (λ l. C l) (C_some c s a z e) ∙ C_new z ∙ sym (C_some c s a z e)
  ]
