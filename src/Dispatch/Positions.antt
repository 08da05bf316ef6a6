-- ===== src/Dispatch/Positions.antt =====
-- The operations of a batch that the server and the workers take, by their numbers: machine 0 of
-- pjsr/lib/WBPPShim.js is the server.
use distributed_wbpp.Prelude.{
  ℕ, zero, suc, ◌+◌, ◌≤◌, ◌<◌, ◌≡◌, ◌≢◌, refl, ◌⊎◌, inl, inr, List, [], ◌∷◌, arith, length, ◌==◌,
  ==_iff, Bool-cases,
}

module _ {Op : Type 0} where
  -- The operations of the server and of the workers in a batch that begins at `i`, and their numbers.
  abbrev pub IsServerAt : ℕ → List (Op × ℕ) → ℕ → Type 0
  IsServerAt i [] j = ⊥
  IsServerAt i ((op, zero) ∷ rest) j = (j ≡ i) ⊎ IsServerAt (suc i) rest j
  IsServerAt i ((op, suc m) ∷ rest) j = IsServerAt (suc i) rest j

  abbrev pub IsClientAt : ℕ → List (Op × ℕ) → ℕ → Type 0
  IsClientAt i [] j = ⊥
  IsClientAt i ((op, zero) ∷ rest) j = IsClientAt (suc i) rest j
  IsClientAt i ((op, suc m) ∷ rest) j = (j ≡ i) ⊎ IsClientAt (suc i) rest j

  abbrev pub servers : List (Op × ℕ) → ℕ
  servers [] = 0
  servers ((op, zero) ∷ rest) = suc (servers rest)
  servers ((op, suc m) ∷ rest) = servers rest

  abbrev pub clients : List (Op × ℕ) → ℕ
  clients [] = 0
  clients ((op, zero) ∷ rest) = clients rest
  clients ((op, suc m) ∷ rest) = suc (clients rest)

  -- What their runs do.
  abbrev pub server_weight : (Op → ℕ) → List (Op × ℕ) → ℕ
  server_weight weight [] = 0
  server_weight weight ((op, zero) ∷ rest) = weight op + server_weight weight rest
  server_weight weight ((op, suc m) ∷ rest) = server_weight weight rest

  abbrev pub client_weight : (Op → ℕ) → List (Op × ℕ) → ℕ
  client_weight weight [] = 0
  client_weight weight ((op, zero) ∷ rest) = client_weight weight rest
  client_weight weight ((op, suc m) ∷ rest) = weight op + client_weight weight rest

  abbrev pub batch_weight : (Op → ℕ) → List (Op × ℕ) → ℕ
  batch_weight weight [] = 0
  batch_weight weight (b ∷ rest) = weight b.0 + batch_weight weight rest

  pub weights :
      (weight : Op → ℕ) (b : List (Op × ℕ))
      → server_weight weight b + client_weight weight b ≡ batch_weight weight b
  weights weight [] = refl
  weights weight ((op, zero) ∷ rest) = omega (arith, weights weight rest)
  weights weight ((op, suc m) ∷ rest) = omega (arith, weights weight rest)

  pub server-le : (i : ℕ) (b : List (Op × ℕ)) (j : ℕ) → IsServerAt i b j → i ≤ j
  server-le i [] j h = elim h [ ]
  server-le i ((op, zero) ∷ rest) j (inl e) = omega arith
  server-le i ((op, zero) ∷ rest) j (inr h) = omega (arith, server-le (suc i) rest j h)
  server-le i ((op, suc m) ∷ rest) j h = omega (arith, server-le (suc i) rest j h)

  pub apart_of :
      (i : ℕ) (rest : List (Op × ℕ)) (j : ℕ) → (j < i) ⊎ IsServerAt (suc i) rest j → j ≢ i
  apart_of i rest j (inl lt) e = omega arith
  apart_of i rest j (inr h) e = omega (arith, server-le (suc i) rest j h)

  pub later :
      (i : ℕ) (rest : List (Op × ℕ)) (j : ℕ)
      → (j < i) ⊎ IsServerAt (suc i) rest j
      → (j < suc i) ⊎ IsServerAt (suc i) rest j
  later i rest j (inl lt) = inl (omega arith)
  later i rest j (inr h) = inr h

  pub position_cases :
      (i : ℕ) (b : List (Op × ℕ)) (j : ℕ)
      → i ≤ j
      → j < i + length b
      → IsServerAt i b j ⊎ IsClientAt i b j
  position_cases i [] j low high = absurd (omega arith)
  position_cases i ((op, m) ∷ rest) j low high = elim (Bool-cases (j == i)) [
    | inl e ↦ here m ((==_iff j i).0 e)
    | inr e ↦ there m (position_cases (suc i) rest j (ground arith) (omega arith))
  ]
    where
      here : (m : ℕ) → j ≡ i → IsServerAt i ((op, m) ∷ rest) j ⊎ IsClientAt i ((op, m) ∷ rest) j
      here zero e = inl (inl e)
      here (suc m) e = inr (inl e)

      there :
          (m : ℕ)
          → IsServerAt (suc i) rest j ⊎ IsClientAt (suc i) rest j
          → IsServerAt i ((op, m) ∷ rest) j ⊎ IsClientAt i ((op, m) ∷ rest) j
      there zero (inl h) = inl (inr h)
      there zero (inr h) = inr h
      there (suc m) (inl h) = inl h
      there (suc m) (inr h) = inr (inr h)

  pub sizes : (b : List (Op × ℕ)) → servers b + clients b ≡ length b
  sizes [] = refl
  sizes ((op, zero) ∷ rest) = omega (arith, sizes rest)
  sizes ((op, suc m) ∷ rest) = omega (arith, sizes rest)
