-- ===== src/Key/Normal.antt =====
-- The canonical form of a cluster key: what passes, and what changes nothing.
use distributed_wbpp.Prelude.{
  ℕ, ◌≡◌, refl, ap, sym, ◌∙◌, ◌++◌, ◌↔◌, Bool, true, false, Option, none, some, [], ◌∷◌, Text,
  arith, length, keep, keep_of_All, keep-append, All, All-map, append_assoc, ok, Bool-cases,
  Option-cases, and-true, ◌⊎◌, inl, inr,
}
use distributed_wbpp.Key.{
  is_alnum, is_base32, every, or_empty, upper_unit, to_upper, clean, normalize_key, load_key,
  generate_key,
}

-- 32 base32 characters.
pub record IsKey (k : Text) : Type 0 where
  pub size : length k ≡ 32
  pub digits : All (λ c. is_base32 c ≡ true) k

pub every-All : (p : ℕ → Bool) (s : Text) → every p s ≡ true → All (λ c. p c ≡ true) s
every-All p [] h = tt
every-All p (c ∷ s) h = let (a, b) = and-true (p c) (every p s) h in (a, every-All p s b)

All-every : (p : ℕ → Bool) (s : Text) → All (λ c. p c ≡ true) s → every p s ≡ true
All-every p [] h = refl
All-every p (c ∷ s) (h, t) = ground (arith, All-every p s t)

pub is_alnum_of_base32 : (c : ℕ) → is_base32 c ≡ true → is_alnum c ≡ true
unfolding is_alnum is_base32
is_alnum_of_base32 c h = ground arith

module _ (special : ℕ → Text) where
  pub to_upper-append :
      (s t : Text) → to_upper special (s ++ t) ≡ to_upper special s ++ to_upper special t
  unfolding to_upper
  to_upper-append [] t = refl
  to_upper-append (c ∷ s) t =
      rw (to_upper-append s t)
        (sym (append_assoc (upper_unit special c) (to_upper special s) (to_upper special t)))

  pub clean-append : (s t : Text) → clean special (s ++ t) ≡ clean special s ++ clean special t
  unfolding clean
  clean-append s t = ap (keep is_alnum) (to_upper-append s t) ∙ keep-append is_alnum _ _

  upper_unit_fixed : (c : ℕ) → is_alnum c ≡ true → upper_unit special c ≡ c ∷ []
  unfolding upper_unit is_alnum
  upper_unit_fixed c h = ground arith

  to_upper_fixed : (s : Text) → All (λ c. is_alnum c ≡ true) s → to_upper special s ≡ s
  unfolding to_upper
  to_upper_fixed [] h = refl
  to_upper_fixed (c ∷ s) (h, t) = rw (upper_unit_fixed c h) (ap (λ r. c ∷ r) (to_upper_fixed s t))

  pub clean_fixed : (s : Text) → All (λ c. is_alnum c ≡ true) s → clean special s ≡ s
  unfolding clean
  clean_fixed s h = ap (keep is_alnum) (to_upper_fixed s h) ∙ keep_of_All is_alnum s h

  -- A key is accepted exactly when what is left of it in upper case, without all but A-Z and 0-9, is a
  -- canonical key, and the result is that canonical key.
  pub normalize_key_iff :
      (t : Option Text) (k : Text)
      → (normalize_key special t ≡ some k) ↔ ((clean special (or_empty t) ≡ k) × IsKey k)
  unfolding normalize_key
  normalize_key_iff t k = (
    λ h. elim (Bool-cases (every is_base32 (clean special (or_empty t)))) [
      | inl e ↦
          let size : length (clean special (or_empty t)) ≡ 32 = ground arith in
          let same : clean special (or_empty t) ≡ k = ground arith in
          let digits = every-All is_base32 _ e in
          (same, rw (← same) (record { size = size; digits = digits }))
      | inr e ↦ ground arith
    ],
    λ (same, valid).
        let e : every is_base32 (clean special (or_empty t)) ≡ true =
          rw same (All-every is_base32 k valid.digits) in
        let l : length (clean special (or_empty t)) ≡ 32 = rw same valid.size in ground arith,
  )

  pub clean_key : (k : Text) → IsKey k → clean special k ≡ k
  clean_key k v = clean_fixed k (All-map is_alnum_of_base32 k v.digits)

  -- A canonical key is its own canonical form; in particular normalising twice is normalising once.
  pub normalize_key_fixed : (k : Text) → IsKey k → normalize_key special (some k) ≡ some k
  normalize_key_fixed k v = (normalize_key_iff (some k) k).1 (clean_key k v, v)

  generated_IsKey :
      (started : Bool) (out : Option Text) (k : Text)
      → generate_key special started out ≡ ok k
      → IsKey k
  unfolding generate_key
  generated_IsKey false out k h = cc
  generated_IsKey true none k h = cc
  generated_IsKey true (some t) k h = ((normalize_key_iff (some t) k).0 (ground arith)).1

  loaded_IsKey :
      (v : Option Text) (read_ok : Bool)
      → (load_key special v read_ok ≡ []) ⊎ IsKey (load_key special v read_ok)
  unfolding load_key
  loaded_IsKey v false = inl refl
  loaded_IsKey v true = elim (Option-cases (normalize_key special v)) [
    | inl e ↦ inl (ap or_empty e)
    | inr (k, e) ↦ inr (rw e ((normalize_key_iff v k).0 e).1)
  ]

  -- Whatever the sidecar wrote and the settings hold, the keys in use are canonical: `generate_key`
  -- returns only canonical keys, and `load_key` returns a canonical key or the empty text.
  pub keys_in_use_IsKey :
      (started read_ok : Bool) (out v : Option Text)
      → ((k : Text) → generate_key special started out ≡ ok k → IsKey k)
        × ((load_key special v read_ok ≡ []) ⊎ IsKey (load_key special v read_ok))
  keys_in_use_IsKey started read_ok out v = (generated_IsKey started out, loaded_IsKey v read_ok)
