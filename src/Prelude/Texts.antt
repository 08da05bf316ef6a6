-- ===== src/Prelude/Texts.antt =====
-- JavaScript strings as lists of code units, and `==` on them.
use Prim.Native.Nat.{ℕ}
use Prim.Native.Char.{code}
use Prim.Native.String.{String}
use mathlib.Core.Path.{◌≡◌, refl, subst}
use mathlib.Core.Logic.{◌↔◌, inl, inr}
use mathlib.Core.Bool.{Bool, true, false, ◌&&◌, ◌||◌}
use mathlib.Core.List.{List, [], ◌∷◌}
use native.Mathlib.Omega.{arith}
use distributed_wbpp.Prelude.Tests.{◌==◌, Bool-cases}
use distributed_wbpp.Prelude.Lists.{All, All-map}

abbrev pub Text : Type 0
Text = List ℕ

-- A literal of the source.
abbrev pub text : String → Text
text String.[] = []
text (String.◌∷◌ c s) = code c ∷ text s

-- `a == b` on strings.
unfoldable pub same_text : Text → Text → Bool
same_text [] [] = true
same_text [] (d ∷ t) = false
same_text (c ∷ s) [] = false
same_text (c ∷ s) (d ∷ t) = (c == d) && same_text s t

pub same_text_iff : (s t : Text) → (same_text s t ≡ true) ↔ (s ≡ t)
unfolding same_text
same_text_iff [] [] = ground arith
same_text_iff [] (d ∷ t) = ground arith
same_text_iff (c ∷ s) [] = ground arith
same_text_iff (c ∷ s) (d ∷ t) = ground (arith, same_text_iff s t)

pub same_text_refl : (s : Text) → same_text s s ≡ true
same_text_refl s = (same_text_iff s s).1 refl

unfoldable pub has_text : List Text → Text → Bool
has_text [] t = false
has_text (s ∷ ss) t = same_text s t || has_text ss t

-- `s.length == 0`
abbrev pub is_empty : Text → Bool
is_empty [] = true
is_empty (_ ∷ _) = false

pub listed_self : (names : List Text) → All (λ n. has_text names n ≡ true) names
unfolding has_text
listed_self [] = tt
listed_self (m ∷ names) = (
  rw (same_text_refl m),
  All-map (λ n (h : has_text names n ≡ true). ground arith) names (listed_self names),
)

-- What holds of all names holds of a listed one.
pub at_listed {ℓ} :
    (P : Text → Type ℓ) (names : List Text) (n : Text) → All P names → has_text names n ≡ true → P n
unfolding has_text
at_listed P [] n h e = absurd (ground arith)
at_listed P (m ∷ names) n (h, t) e = elim (Bool-cases (same_text m n)) [
  | inl same ↦ subst P ((same_text_iff m n).0 same) h
  | inr apart ↦ at_listed P names n t (ground arith)
]
