-- ===== src/Measure/Descriptors.antt =====
-- buildDescriptor of pjsr/lib/WBPPShim.js: which rows give a descriptor that is not failed.
use distributed_wbpp.Prelude.{
  ℕ, ◌≡◌, refl, sym, ◌∙◌, ◌↔◌, Bool-cases, inl, inr, All-map, Bool, true, false, Option, none, some,
  List, [], ◌∷◌, Text, arith, All, if◌then◌else◌,
}
use distributed_wbpp.Split.{Number}
use distributed_wbpp.Metrics.{Cell, is_finite_cell, is_positive, build_descriptor, null}

-- The columns that are checked.
abbrev pub checked : List ℕ
checked = 5 ∷ 6 ∷ 7 ∷ 9 ∷ 10 ∷ 11 ∷ 14 ∷ 26 ∷ 28 ∷ []

abbrev pub IsUsable : (J : Number) → (J.N → Bool) → Option (ℕ → Cell J.N) → Type 0
IsUsable J is_finite none = ⊥
IsUsable J is_finite (some row) =
    All (λ i. is_finite_cell J is_finite (row i) ≡ true) checked
    × (is_positive J is_finite (row 14) ≡ true)

-- A descriptor is not failed exactly if the row is there, its nine checked columns count as finite numbers,
-- and the number of stars is above 0. The noise, column 12, is not checked.
pub build_descriptor_iff :
    (J : Number) (is_finite : J.N → Bool) (row : Option (ℕ → Cell J.N)) (path : Text)
    → ((build_descriptor J is_finite row path).failed ≡ false) ↔ IsUsable J is_finite row
unfolding build_descriptor
build_descriptor_iff J is_finite none path = ((λ h. cc), (λ h. absurd h))
build_descriptor_iff J is_finite (some row) path = ((λ h. ground arith), (λ (h, p). ground arith))

module _ (J : Number) (is_finite : J.N → Bool) where
  -- A row of which some columns are replaced by null.
  abbrev pub nulled : (ℕ → Bool) → (ℕ → Cell J.N) → ℕ → Cell J.N
  nulled nulls row i = if nulls i then null else row i

  nulled-finite :
      (nulls : ℕ → Bool) (row : ℕ → Cell J.N) (i : ℕ)
      → is_finite_cell J is_finite (row i) ≡ true
      → is_finite_cell J is_finite (nulled nulls row i) ≡ true
  unfolding is_finite_cell
  nulled-finite nulls row i h = elim (Bool-cases (nulls i)) [ inl e ↦ rw e refl | inr e ↦ rw e h ]

  nulled-IsUsable :
      (nulls : ℕ → Bool) (row : ℕ → Cell J.N)
      → nulls 14 ≡ false
      → IsUsable J is_finite (some row)
      → IsUsable J is_finite (some (nulled nulls row))
  nulled-IsUsable nulls row e (h, p) = (
    All-map {P = λ i. is_finite_cell J is_finite (row i) ≡ true}
        (λ i k. nulled-finite nulls row i k) checked h,
    rw e p,
  )

  no_stars : is_positive J is_finite null ≡ true → ⊥
  unfolding is_positive
  no_stars h = absurd (ground arith)

  -- Null for a number does not make a descriptor fail, as in a row that a client sends with null for the
  -- numbers that JSON does not have: of any row whose descriptor is not failed, any columns may be
  -- replaced by null, and then the descriptor is failed exactly if the number of stars, column 14, is one
  -- of them.
  pub build_descriptor-null :
      (nulls : ℕ → Bool) (row : ℕ → Cell J.N) (path : Text)
      → (build_descriptor J is_finite (some row) path).failed ≡ false
      → (build_descriptor J is_finite (some (nulled nulls row)) path).failed ≡ nulls 14
  build_descriptor-null nulls row path h = elim (Bool-cases (nulls 14)) [
    | inl e ↦
        elim (Bool-cases (build_descriptor J is_finite (some (nulled nulls row)) path).failed) [
          | inl failed ↦ failed ∙ sym e
          | inr usable ↦
              absurd (no_stars (rw e at ((build_descriptor_iff J is_finite _ path).0 usable).1))
        ]
    | inr e ↦
        (build_descriptor_iff J is_finite (some (nulled nulls row)) path).1
          (nulled-IsUsable nulls row e ((build_descriptor_iff J is_finite (some row) path).0 h))
        ∙ sym e
  ]
