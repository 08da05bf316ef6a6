-- ===== src/Key/Layout.antt =====
-- The layout of a cluster key does not matter: separators are dropped, and the display form of a key
-- reads back as that key.
use distributed_wbpp.Prelude.{
  ℕ, ◌≡◌, refl, ap, sym, ◌∙◌, ◌++◌, true, false, some, List, [], ◌∷◌, Text, arith, length,
  keep_none, All, All-map, append_assoc, append-nil, ok, text, Bool-cases, inl, inr, All-append,
  ◌==◌, leb,
}
use distributed_wbpp.Key.{
  is_alnum, is_base32, is_line_end, upper_unit, to_upper, clean, normalize_key, groups_from, join,
  format_key, show_groups, between, flush,
}
use distributed_wbpp.Key.Normal.{IsKey, clean-append, clean_key, normalize_key_iff}

-- An ASCII unit that is neither a letter nor a digit: a space, a dash, a line break.
abbrev pub IsSeparator : ℕ → Type 0
IsSeparator c =
    (leb 128 c ≡ false)
    × (between b'a' b'z' c ≡ false)
    × (between b'A' b'Z' c ≡ false)
    × (between b'0' b'9' c ≡ false)

concat : List Text → Text
concat [] = []
concat (g ∷ gs) = g ++ concat gs

concat-flush : (cur : Text) (gs : List Text) → concat (flush cur gs) ≡ cur ++ concat gs
unfolding concat
concat-flush [] gs = refl
concat-flush (c ∷ s) gs = refl

-- The groups of a text without line ends hold all of it, in order.
concat-groups_from :
    (cur s : Text) → All (λ c. is_line_end c ≡ false) s → concat (groups_from cur s) ≡ cur ++ s
unfolding groups_from concat
concat-groups_from cur [] h = concat-flush cur []
concat-groups_from cur (c ∷ s) (plain, h) = rw plain (elim (Bool-cases (length cur == 3)) [
  | inl full ↦ rw (full, concat) (rw (concat-groups_from [] s h) (append_assoc cur (c ∷ []) s))
  | inr more ↦ rw more (concat-groups_from (cur ++ c ∷ []) s h ∙ append_assoc cur (c ∷ []) s)
])

not_line_end : (c : ℕ) → is_base32 c ≡ true → is_line_end c ≡ false
unfolding is_base32 is_line_end
not_line_end c h = ground arith

module _ (special : ℕ → Text) where
  to_upper-sep : (s : Text) → All IsSeparator s → All IsSeparator (to_upper special s)
  unfolding to_upper upper_unit
  to_upper-sep [] h = tt
  to_upper-sep (c ∷ s) (h, t) =
      All-append IsSeparator (upper_unit special c) (to_upper special s) (ground arith)
        (to_upper-sep s t)

  clean_separators : (s : Text) → All IsSeparator s → clean special s ≡ []
  unfolding clean is_alnum
  clean_separators s h =
      keep_none is_alnum (to_upper special s)
        (All-map (λ c (p : IsSeparator c). ground arith) (to_upper special s) (to_upper-sep s h))

  -- Separators may stand anywhere in a pasted key: they do not change what it is read as.
  pub normalize_key-separators :
      (a sep b : Text)
      → All IsSeparator sep
      → normalize_key special (some (a ++ sep ++ b)) ≡ normalize_key special (some (a ++ b))
  unfolding normalize_key
  normalize_key-separators a sep b h =
      let same : clean special (a ++ sep ++ b) ≡ clean special (a ++ b) =
        simp (clean-append special, clean_separators sep h, append-nil) in
      rw same

  clean-join :
      (sep : Text) (gs : List Text)
      → All IsSeparator sep
      → clean special (join sep gs) ≡ clean special (concat gs)
  unfolding join concat
  clean-join sep [] h = refl
  clean-join sep (g ∷ []) h = ap (clean special) (sym (append-nil g))
  clean-join sep (g ∷ k ∷ gs) h =
      let ih = clean-join sep (k ∷ gs) h in
      simp (clean-append special, clean_separators sep h, append-nil, ih)

  shown_groups :
      (gs : List Text) (k : Text)
      → concat gs ≡ k
      → IsKey k
      → (shown : Text) × (show_groups gs ≡ ok shown) × (normalize_key special (some shown) ≡ some k)
  unfolding concat
  shown_groups [] k e v = absurd (omega (arith, ap length e, v.size))
  shown_groups (g ∷ gs) k e v = (
    join (text "-") (g ∷ gs),
    refl,
    (normalize_key_iff special _ k).1 (
      clean-join (text "-") (g ∷ gs) (ground arith) ∙ ap (clean special) e ∙ clean_key special k v,
      v,
    ),
  )

  -- The display form of a canonical key exists, and reads back as that key.
  pub normalize-format :
      (k : Text)
      → IsKey k
      → (shown : Text) × (format_key k ≡ ok shown) × (normalize_key special (some shown) ≡ some k)
  unfolding format_key
  normalize-format k v =
      shown_groups (groups_from [] k) k (concat-groups_from [] k (All-map not_line_end k v.digits))
        v
