-- ===== src/Xdrz/Stable.antt =====
-- The elements of a .xdrz that the expressions of pjsr/lib/WBPPShim.js match, and their replacement by a constant.
use distributed_wbpp.Prelude.{
  ℕ, ◌≡◌, refl, sym, ap, ◌∙◌, inl, inr, false, Option, none, some, [], ◌∷◌, ◌++◌, Text, arith, All,
  ◌==◌, ==_iff, Bool-cases, Option-cases, append_assoc, subst,
}
use distributed_wbpp.Xdrz.{
  strip, until_open, open_tag, close_tag, with_rest, match_close, match_element, replace_from,
  expand, element,
}

-- No "<" in a text, and no "$".
abbrev pub IsFlat : Text → Type 0
IsFlat s = All (λ c. (c == 60) ≡ false) s

abbrev pub IsLiteral : Text → Type 0
IsLiteral s = All (λ c. (c == 36) ≡ false) s

-- The replacement with a constant.
abbrev pub const_at : Text → ℕ → Text → Option (Text × Text) → Text
const_at new c later none = c ∷ later
const_at new c later (some (content, after)) = new ++ after

unfoldable pub const : Text → Text → Text → Text
unfolding match_element
const tag new [] = []
const tag new (c ∷ s) = const_at new c (const tag new s) (match_element tag (c ∷ s))

pub expand_literal : (b m a t : Text) → IsLiteral t → expand b m a t ≡ t
unfolding expand
expand_literal b m a [] h = refl
expand_literal b m a (c ∷ []) h = refl
expand_literal b m a (c ∷ d ∷ s) (h, t) = rw (h, expand_literal b m a (d ∷ s) t) refl

pub replace_const :
    (tag new : Text) (f : Text → Text → Text → Text) (b s : Text)
    → ((x y z : Text) → f x y z ≡ new)
    → replace_from tag f b s ≡ const tag new s
unfolding replace_from const
replace_const tag new f b [] h = refl
replace_const tag new f b (c ∷ s) h = elim (Option-cases (match_element tag (c ∷ s))) [
  | inl e ↦ rw e (ap (λ l. c ∷ l) (replace_const tag new f _ s h))
  | inr ((content, after), e) ↦ rw e (ap (λ l. l ++ after) (h _ _ _))
]

pub strip-append : (p s : Text) → strip p (p ++ s) ≡ some s
unfolding strip
strip-append [] s = refl
strip-append (c ∷ p) s = ground (arith, strip-append p s)

pub until_open-append : (p s : Text) → IsFlat p → until_open (p ++ (60 ∷ s)) ≡ (p, 60 ∷ s)
unfolding until_open
until_open-append [] s h = refl
until_open-append (c ∷ p) s (h, t) = rw (h, until_open-append p s t) refl

-- Another character than "<" begins no element.
pub match_none :
    (tag : Text) (c : ℕ) (s : Text) → (c == 60) ≡ false → match_element tag (c ∷ s) ≡ none
unfolding match_element strip
match_none tag c s h = let e : (60 == c) ≡ false = ground (arith, h) in rw e refl

pub strip_sound : (p s r : Text) → strip p s ≡ some r → s ≡ p ++ r
unfolding strip
strip_sound [] s r h = cc
strip_sound (c ∷ p) [] r h = cc
strip_sound (c ∷ p) (d ∷ s) r h = elim (Bool-cases (c == d)) [
  | inl e ↦
      let same = (==_iff c d).0 e in
      let rest : strip p s ≡ some r = ground (arith, h, e) in ap₂ same (strip_sound p s r rest)
  | inr e ↦ absurd (ground (arith, h, e))
]
  where
    ap₂ : {c d : ℕ} {s t : Text} → c ≡ d → s ≡ t → d ∷ s ≡ c ∷ t
    ap₂ e h = cc

pub until_open_sound :
    (s : Text) → (s ≡ (until_open s).0 ++ (until_open s).1) × IsFlat (until_open s).0
unfolding until_open
until_open_sound [] = (refl, tt)
until_open_sound (c ∷ s) = elim (Bool-cases (c == 60)) [
  | inl e ↦ rw e (refl, tt)
  | inr e ↦ let (h, k) = until_open_sound s in rw e (ap (λ l. c ∷ l) h, (e, k))
]

pub element-append :
    (tag y z : Text) → element tag y ++ z ≡ open_tag tag ++ (y ++ (close_tag tag ++ z))
element-append tag y z =
    append_assoc (open_tag tag) (y ++ close_tag tag) z
    ∙ ap (λ l. open_tag tag ++ l) (append_assoc y (close_tag tag) z)

none-some : {A : Type 0} {a : A} → none ≡ some a → ⊥
none-some e = cc

-- What is matched is an element.
close_sound :
    (tag r content after : Text)
    → match_close tag (some r) ≡ some (content, after)
    → (r ≡ content ++ (close_tag tag ++ after)) × IsFlat content
close_sound tag r content after h = elim (Option-cases (strip (close_tag tag) (until_open r).1)) [
  | inl f ↦
      absurd (none-some (subst (λ o. with_rest (until_open r).0 o ≡ some (content, after)) f h))
  | inr (z, f) ↦
      let k : Path (Option (Text × Text)) (some ((until_open r).0, z)) (some (content, after)) =
        subst (λ o. with_rest (until_open r).0 o ≡ some (content, after)) f h in
      let (whole, flat) = until_open_sound r in
      let first : (until_open r).0 ≡ content = cc in
      let last : z ≡ after = cc in
      let tail : (until_open r).1 ≡ close_tag tag ++ after =
        strip_sound (close_tag tag) (until_open r).1 z f ∙ ap (λ l. close_tag tag ++ l) last in
      (
        whole ∙ ap (λ l. l ++ (until_open r).1) first ∙ ap (λ l. content ++ l) tail,
        subst (λ l. IsFlat l) first flat,
      )
]

pub match_sound :
    (tag s content after : Text)
    → match_element tag s ≡ some (content, after)
    → (s ≡ element tag content ++ after) × IsFlat content
unfolding match_element
match_sound tag s content after h = elim (Option-cases (strip (open_tag tag) s)) [
  | inl e ↦ absurd (none-some (subst (λ o. match_close tag o ≡ some (content, after)) e h))
  | inr (r, e) ↦
      let (whole, flat) =
        close_sound tag r content after
          (subst (λ o. match_close tag o ≡ some (content, after)) e h) in
      (
        strip_sound (open_tag tag) s r e
            ∙ ap (λ l. open_tag tag ++ l) whole
            ∙ sym (element-append tag content after),
        flat,
      )
]

-- An element is matched.
pub match_element-element :
    (tag x after : Text) → IsFlat x → match_element tag (element tag x ++ after) ≡ some (x, after)
unfolding match_element
match_element-element tag x after h =
    let rest = x ++ (close_tag tag ++ after) in
    ap (λ l. match_close tag (strip (open_tag tag) l)) (element-append tag x after)
    ∙ ap (λ o. match_close tag o) (strip-append (open_tag tag) rest)
    ∙ ap (λ q. with_rest q.0 (strip (close_tag tag) q.1)) (until_open-append x _ h)
    ∙ ap (λ o. with_rest x o) (strip-append (close_tag tag) after)
