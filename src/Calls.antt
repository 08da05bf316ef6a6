-- ===== src/Calls.antt =====
-- Calls that change a state and may throw. The state keeps what was done before the error.
use distributed_wbpp.Prelude.{◌≡◌, refl, ◌∙◌, Text, Outcome, ok, throw}

abbrev pub Call : Type 0 → Type 0 → Type 0
Call S A = S → Outcome A × S

abbrev pub pure : {S A : Type 0} → A → Call S A
pure a s = (ok a, s)

abbrev pub raise : {S A : Type 0} → Text → Call S A
raise e s = (throw e, s)

-- What follows a call, by its outcome.
abbrev pub after : {S A B : Type 0} → (A → Call S B) → Outcome A → Call S B
after f (ok a) s = f a s
after f (throw e) s = (throw e, s)

infixl 5 ◌>>=◌ ◌>>◌
abbrev pub ◌>>=◌ : {S A B : Type 0} → Call S A → (A → Call S B) → Call S B
◌>>=◌ m f s = after f (m s).0 (m s).1

abbrev pub ◌>>◌ : {S B : Type 0} → Call S (Unit {0}) → Call S B → Call S B
m >> k = m >>= λ _. k

abbrev pub rescue : {S A : Type 0} → (Text → Call S A) → Outcome A → Call S A
rescue handler (ok a) s = (ok a, s)
rescue handler (throw e) s = handler e s

-- `try { m } catch ( e ) { handler( e ) }`
abbrev pub attempt : {S A : Type 0} → Call S A → (Text → Call S A) → Call S A
attempt m handler s = rescue handler (m s).0 (m s).1

-- What holds after a call that returned, and after one that threw.
pub data Ends {S A : Type 0} (P : A → S → Type 0) (E : S → Type 0) : Outcome A × S → Type 0 where
  returned : {a : A} {s : S} → P a s → Ends P E (ok a, s)
  threw : {e : Text} {s : S} → E s → Ends P E (throw e, s)

-- The call returned.
abbrev pub Returns : {S A : Type 0} → (A → S → Type 0) → Outcome A × S → Type 0
Returns P = Ends P (λ _. ⊥)

pub >>=-Ends :
    {S A B : Type 0} {P : A → S → Type 0} {Q : B → S → Type 0} {E : S → Type 0} {r : Outcome A × S}
    (f : A → Call S B)
    → Ends P E r
    → ((a : A) (t : S) → P a t → Ends Q E (f a t))
    → Ends Q E (after f r.0 r.1)
>>=-Ends f (returned h) k = k _ _ h
>>=-Ends f (threw h) k = threw h

pub attempt-Ends :
    {S A : Type 0} {P : A → S → Type 0} {E F : S → Type 0} {r : Outcome A × S}
    (handler : Text → Call S A)
    → Ends P E r
    → ((e : Text) (t : S) → E t → Ends P F (handler e t))
    → Ends P F (rescue handler r.0 r.1)
attempt-Ends handler (returned h) k = returned h
attempt-Ends handler (threw h) k = k _ _ h

pub Ends-map :
    {S A : Type 0} {P Q : A → S → Type 0} {E F : S → Type 0} {r : Outcome A × S}
    → ((a : A) (t : S) → P a t → Q a t)
    → ((t : S) → E t → F t)
    → Ends P E r
    → Ends Q F r
Ends-map f g (returned h) = returned (f _ _ h)
Ends-map f g (threw h) = threw (g _ h)

-- What a call leaves alone, whether it returns or throws.
module _ {S V : Type 0} (view : S → V) where
  abbrev pub Keeps : {A : Type 0} → Call S A → Type 0
  Keeps m = (s : S) → view (m s).1 ≡ view s

  pub after-Keeps :
      {A B : Type 0} (f : A → Call S B) (r : Outcome A) (s : S)
      → ((a : A) → Keeps (f a))
      → view (after f r s).1 ≡ view s
  after-Keeps f (ok a) s k = k a s
  after-Keeps f (throw e) s k = refl

  pub bind-Keeps :
      {A B : Type 0} (m : Call S A) (f : A → Call S B)
      → Keeps m
      → ((a : A) → Keeps (f a))
      → Keeps (m >>= f)
  bind-Keeps m f h k s = after-Keeps f (m s).0 (m s).1 k ∙ h s

  rescue-Keeps :
      {A : Type 0} (handler : Text → Call S A) (r : Outcome A) (s : S)
      → ((e : Text) → Keeps (handler e))
      → view (rescue handler r s).1 ≡ view s
  rescue-Keeps handler (ok a) s k = refl
  rescue-Keeps handler (throw e) s k = k e s

  pub attempt-Keeps :
      {A : Type 0} (m : Call S A) (handler : Text → Call S A)
      → Keeps m
      → ((e : Text) → Keeps (handler e))
      → Keeps (attempt m handler)
  attempt-Keeps m handler h k s = rescue-Keeps handler (m s).0 (m s).1 k ∙ h s
