-- ===== src/Serializer/Listing/Names.antt =====
-- The names read from a source listing.
use distributed_wbpp.Prelude.{
  ℕ, zero, suc, ◌-◌, ◌≡◌, refl, ap, Bool, true, false, not, ◌&&◌, some, List, [], ◌∷◌, Text, arith,
  All, has_text, same_text, same_text_iff, length, Bool-cases, Option-cases, inl, inr,
}
use distributed_wbpp.Serializer.Listing.{
  is_newline, is_name_start, is_name_unit, skip_spaces, read_name, match_name, match_dot, match_p,
  match_at, matches, inherited, unseen, parameter_names,
}

-- [A-Za-z_][A-Za-z0-9_]*
abbrev pub IsName : Text → Type 0
IsName [] = ⊥
IsName (c ∷ s) = (is_name_start c ≡ true) × All (λ u. is_name_unit u ≡ true) s

abbrev pub NoRepeat : List Text → Type 0
NoRepeat [] = Unit
NoRepeat (n ∷ ns) = (has_text ns n ≡ false) × NoRepeat ns

read_name-units : (s : Text) → All (λ u. is_name_unit u ≡ true) (read_name s).0
unfolding read_name
read_name-units [] = tt
read_name-units (c ∷ s) = ground (arith, read_name-units s)

match_name-IsName : (s name rest : Text) → match_name s ≡ some (name, rest) → IsName name
unfolding match_name
match_name-IsName [] name rest e = absurd (ground arith)
match_name-IsName (c ∷ s) name rest e =
    let same : name ≡ c ∷ (read_name s).0 = ground arith in
    let start : is_name_start c ≡ true = ground arith in rw same (start, read_name-units s)

match_at-IsName : (s name rest : Text) → match_at s ≡ some (name, rest) → IsName name
unfolding match_at
match_at-IsName s name rest e = from_p (skip_spaces s) e
  where
    from_dot : (t : Text) → match_dot t ≡ some (name, rest) → IsName name
    from_dot [] h = absurd (ground arith)
    from_dot (c ∷ t) h = match_name-IsName t name rest (ground arith)

    from_p : (t : Text) → match_p t ≡ some (name, rest) → IsName name
    from_p [] h = absurd (ground arith)
    from_p (c ∷ t) h = from_dot t (ground arith)

matches-IsName : (bol : Bool) (skip : ℕ) (s : Text) → All IsName (matches bol skip s)
unfolding matches
matches-IsName bol skip [] = tt
matches-IsName bol (suc skip) (c ∷ s) = matches-IsName (is_newline c) skip s
matches-IsName false zero (c ∷ s) = matches-IsName (is_newline c) zero s
matches-IsName true zero (c ∷ s) = elim (Option-cases (match_at (c ∷ s))) [
  | inl e ↦ rw (e, matches) (matches-IsName (is_newline c) zero s)
  | inr ((name, rest), e) ↦
      rw (e, matches)
        (
          match_at-IsName (c ∷ s) name rest e,
          matches-IsName (is_newline c) (length s - length rest) s,
        )
]

-- What is kept: each name not seen before, once.
has_text-unseen :
    (seen ns : List Text) (n : Text)
    → has_text (unseen seen ns) n ≡ (has_text ns n && not (has_text seen n))
unfolding unseen has_text
has_text-unseen seen [] n = refl
has_text-unseen seen (m ∷ ns) n = elim (Bool-cases (same_text m n)) [
  | inl e ↦
      let alike = ap (has_text seen) ((same_text_iff m n).0 e) in
      ground (arith, alike, has_text-unseen seen ns n)
  | inr e ↦ ground (arith, has_text-unseen seen ns n, has_text-unseen (m ∷ seen) ns n)
]

unseen-NoRepeat : (seen ns : List Text) → NoRepeat (unseen seen ns)
unfolding unseen has_text
unseen-NoRepeat seen [] = tt
unseen-NoRepeat seen (m ∷ ns) = ground (
  arith,
  unseen-NoRepeat seen ns,
  unseen-NoRepeat (m ∷ seen) ns,
  has_text-unseen (m ∷ seen) ns m,
  same_text_iff m m,
)

unseen-All : (P : Text → Type 0) (seen ns : List Text) → All P ns → All P (unseen seen ns)
unfolding unseen
unseen-All P seen [] h = tt
unseen-All P seen (m ∷ ns) (h, t) =
    ground (arith, unseen-All P seen ns t, unseen-All P (m ∷ seen) ns t)

-- Whatever the listing, the names read from it are identifiers, without repetition, and they are exactly
-- the matched ones that no object inherits.
pub parameter_names_sound :
    (src : Text)
    → NoRepeat (parameter_names src)
      × All IsName (parameter_names src)
      × ((n : Text)
          → has_text (parameter_names src) n
            ≡ (has_text (matches true zero src) n && not (has_text inherited n)))
unfolding parameter_names
parameter_names_sound src = (
  unseen-NoRepeat inherited (matches true zero src),
  unseen-All IsName inherited _ (matches-IsName true zero src),
  has_text-unseen inherited (matches true zero src),
)
