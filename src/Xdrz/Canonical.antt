-- ===== src/Xdrz/Canonical.antt =====
-- __canonicalizeXdrz of pjsr/lib/WBPPShim.js: a text that it wrote it leaves as it is.
use distributed_wbpp.Prelude.{
  ℕ, ◌≡◌, refl, sym, ap, ◌∙◌, inl, inr, Bool, true, false, not, ◌&&◌, [], ◌∷◌, ◌++◌, Text, text,
  arith, All, All-append, if◌then◌else◌, ◌==◌, Option-cases,
}
use distributed_wbpp.Xdrz.{
  strip, open_tag, close_tag, match_element, element, replace_by_string, canonical_text,
  source_image, target_image,
}
use distributed_wbpp.Xdrz.Stable.{
  IsFlat, IsLiteral, const, match_sound, element-append, expand_literal, replace_const,
}
use distributed_wbpp.Xdrz.Again.{IsTag, C, C_plain, C_nil, C_none, C_some, C_new, none_C, C_again}

module _ (n : ℕ) (t x : Text) (T : IsTag n t x) (m : ℕ) (u y : Text) (U : IsTag m u y)
    (apart : (n == m) ≡ false) where
  skip_flat : (p r : Text) → IsFlat p → C n t x T (p ++ r) ≡ p ++ C n t x T r
  skip_flat [] r h = refl
  skip_flat (c ∷ p) r (h, k) = C_plain n t x T c (p ++ r) h ∙ ap (λ l. c ∷ l) (skip_flat p r k)

  tag-IsFlat : IsFlat ((m ∷ u) ++ (62 ∷ []))
  tag-IsFlat = All-append (λ c. (c == 60) ≡ false) (m ∷ u) (62 ∷ []) U.flat (refl, tt)

  skip_open : (r : Text) → C n t x T (open_tag (m ∷ u) ++ r) ≡ open_tag (m ∷ u) ++ C n t x T r
  unfolding match_element strip
  skip_open r =
      C_none n t x T 60 (((m ∷ u) ++ (62 ∷ [])) ++ r) (rw apart refl)
      ∙ ap (λ l. 60 ∷ l) (skip_flat ((m ∷ u) ++ (62 ∷ [])) r tag-IsFlat)

  skip_close : (r : Text) → C n t x T (close_tag (m ∷ u) ++ r) ≡ close_tag (m ∷ u) ++ C n t x T r
  unfolding match_element strip
  skip_close r =
      C_none n t x T 60 ((47 ∷ ((m ∷ u) ++ (62 ∷ []))) ++ r) (rw T.no_slash refl)
      ∙ ap (λ l. 60 ∷ l) (skip_flat (47 ∷ ((m ∷ u) ++ (62 ∷ []))) r (refl, tag-IsFlat))

  -- An element of the other tag is passed over.
  skip_element :
      (a z : Text)
      → IsFlat a
      → C n t x T (element (m ∷ u) a ++ z) ≡ element (m ∷ u) a ++ C n t x T z
  skip_element a z h =
      ap (λ l. C n t x T l) (element-append (m ∷ u) a z)
      ∙ skip_open (a ++ (close_tag (m ∷ u) ++ z))
      ∙ ap (λ l. open_tag (m ∷ u) ++ l)
          (skip_flat a (close_tag (m ∷ u) ++ z) h ∙ ap (λ l. a ++ l) (skip_close z))
      ∙ sym (element-append (m ∷ u) a (C n t x T z))

append_cancel : (p a b : Text) → p ++ a ≡ p ++ b → a ≡ b
append_cancel [] a b h = h
append_cancel (c ∷ p) a b h = append_cancel p a b cc

module _ (n : ℕ) (t x : Text) (T : IsTag n t x) (m : ℕ) (u y : Text) (U : IsTag m u y)
    (apart : (n == m) ≡ false) (apart' : (m == n) ≡ false) where
  -- The replacement of one tag leaves the other's as it is.
  keeps : (s : Text) → C n t x T s ≡ s → C n t x T (C m u y U s) ≡ C m u y U s
  keeps [] h = ap (λ l. C n t x T l) (C_nil m u y U) ∙ C_nil n t x T ∙ sym (C_nil m u y U)
  keeps (c ∷ s) h = elim (Option-cases (match_element (m ∷ u) (c ∷ s))) [
    | inr ((a, z), e) ↦
        let (whole, flat) = match_sound (m ∷ u) (c ∷ s) a z e in
        let over : element (m ∷ u) a ++ C n t x T z ≡ element (m ∷ u) a ++ z =
          sym (skip_element n t x T m u y U apart a z flat)
          ∙ ap (λ l. C n t x T l) (sym whole)
          ∙ h
          ∙ whole in
        let rest : C n t x T z ≡ z = append_cancel (element (m ∷ u) a) (C n t x T z) z over in
        ap (λ l. C n t x T l) (C_some m u y U c s a z e)
        ∙ skip_element n t x T m u y U apart y z U.content
        ∙ ap (λ l. element (m ∷ u) y ++ l) rest
        ∙ sym (C_some m u y U c s a z e)
    | inl e ↦ elim (Option-cases (match_element (n ∷ t) (c ∷ s))) [
      | inl f ↦
          let rest : C n t x T s ≡ s =
            append_cancel (c ∷ []) (C n t x T s) s (sym (C_none n t x T c s f) ∙ h) in
          ap (λ l. C n t x T l) (C_none m u y U c s e)
          ∙ C_none n t x T c (C m u y U s) (none_C m u y U n t c s T.flat f)
          ∙ ap (λ l. c ∷ l) (keeps s rest)
          ∙ sym (C_none m u y U c s e)
      | inr ((a, z), f) ↦
          let whole : c ∷ s ≡ element (n ∷ t) x ++ z = sym h ∙ C_some n t x T c s a z f in
          let moved : C m u y U (c ∷ s) ≡ element (n ∷ t) x ++ C m u y U z =
            ap (λ l. C m u y U l) whole ∙ skip_element m u y U n t x T apart' x z T.content in
          ap (λ l. C n t x T l) moved ∙ C_new n t x T (C m u y U z) ∙ sym moved
    ]
  ]

element-IsLiteral :
    (tag x : Text)
    → IsLiteral (open_tag tag)
    → IsLiteral (close_tag tag)
    → IsLiteral x
    → IsLiteral (element tag x)
element-IsLiteral tag x o c h =
    All-append (λ d. (d == 36) ≡ false) (open_tag tag) (x ++ close_tag tag) o
      (All-append (λ d. (d == 36) ≡ false) x (close_tag tag) h c)

abbrev pub lacks : ℕ → Text → Bool
lacks d [] = true
lacks d (c ∷ s) = not (c == d) && lacks d s

pub lacks-All : (d : ℕ) (s : Text) → lacks d s ≡ true → All (λ c. (c == d) ≡ false) s
lacks-All d [] h = tt
lacks-All d (c ∷ s) h = (ground (arith, h), lacks-All d s (ground (arith, h)))

source-IsTag : (x : Text) → IsFlat x → IsTag 83 (text "ourceImage") x
source-IsTag x h = record { flat = lacks-All 60 source_image refl; no_slash = refl; content = h }

target-IsTag : (x : Text) → IsFlat x → IsTag 65 (text "lignmentTargetImage") x
target-IsTag x h = record { flat = lacks-All 60 target_image refl; no_slash = refl; content = h }

by_constant :
    (tag x s : Text)
    → lacks 36 (open_tag tag) ≡ true
    → lacks 36 (close_tag tag) ≡ true
    → IsLiteral x
    → replace_by_string tag x s ≡ const tag (element tag x) s
unfolding replace_by_string
by_constant tag x s o c h = replace_const tag (element tag x) _ [] s (λ before content after.
    expand_literal before (element tag content) after (element tag x)
      (element-IsLiteral tag x (lacks-All 36 (open_tag tag) o) (lacks-All 36 (close_tag tag) c) h))

module _ (cal reg : Text) (flat_cal : IsFlat cal) (flat_reg : IsFlat reg) where
  abbrev S : Text → Text
  S s = C 83 (text "ourceImage") cal (source-IsTag cal flat_cal) s

  abbrev R : Text → Text
  R s = C 65 (text "lignmentTargetImage") reg (target-IsTag reg flat_reg) s

  S_again : (s : Text) → S (S s) ≡ S s
  S_again s = C_again 83 (text "ourceImage") cal (source-IsTag cal flat_cal) s

  R_again : (s : Text) → R (R s) ≡ R s
  R_again s = C_again 65 (text "lignmentTargetImage") reg (target-IsTag reg flat_reg) s

  S_kept : (s : Text) → S s ≡ s → S (R s) ≡ R s
  S_kept s h =
      keeps 83 (text "ourceImage") cal (source-IsTag cal flat_cal) 65 (text "lignmentTargetImage")
        reg (target-IsTag reg flat_reg) refl refl s h

  canonical_text-sr :
      (a b : Bool) (s : Text)
      → IsLiteral cal
      → IsLiteral reg
      → canonical_text cal a reg b s
        ≡ (if b then R (if a then S s else s) else (if a then S s else s))
  unfolding canonical_text
  canonical_text-sr true true s h k =
      by_constant target_image reg (replace_by_string source_image cal s) refl refl k
      ∙ ap (λ l. R l) (by_constant source_image cal s refl refl h)
  canonical_text-sr true false s h k = by_constant source_image cal s refl refl h
  canonical_text-sr false true s h k = by_constant target_image reg s refl refl k
  canonical_text-sr false false s h k = refl

  -- A text that was made canonical is left as it is when it is made so again with the same paths, where
  -- neither path has a "<" or a "$" in it.
  pub canonical_text_again :
      (a b : Bool) (s : Text)
      → IsLiteral cal
      → IsLiteral reg
      → canonical_text cal a reg b (canonical_text cal a reg b s) ≡ canonical_text cal a reg b s
  canonical_text_again a b s h k =
      let once = canonical_text-sr a b s h k in
      ap (λ l. canonical_text cal a reg b l) once
      ∙ canonical_text-sr a b (if b then R (if a then S s else s) else (if a then S s else s)) h k
      ∙ again a b
      ∙ sym once
    where
      again :
          (a b : Bool)
          → (if b
              then R (
                  if a
                  then S (if b then R (if a then S s else s) else (if a then S s else s))
                  else (if b then R (if a then S s else s) else (if a then S s else s)))
              else (if a
                  then S (if b then R (if a then S s else s) else (if a then S s else s))
                  else (if b then R (if a then S s else s) else (if a then S s else s))))
            ≡ (if b then R (if a then S s else s) else (if a then S s else s))
      again true true = ap (λ l. R l) (S_kept (S s) (S_again s)) ∙ R_again (S s)
      again true false = S_again s
      again false true = R_again s
      again false false = refl
