-- ===== src/Leases/Quiet.antt =====
-- What calls of pjsr/lib/WBPPShim.js do to a count of masters: nothing, whether they return or throw, or one
-- more if they return.
use distributed_wbpp.Prelude.{ℕ, ◌+◌, ◌≡◌, refl, ◌∙◌, ap, Text, ok}
use distributed_wbpp.Calls.{
  Call, pure, raise, ◌>>=◌, attempt, Ends, Returns, returned, threw, >>=-Ends, attempt-Ends,
  Ends-map,
}

module _ {W : Type 0} (work : W → ℕ) where
  abbrev pub Same : W → W → Type 0
  Same w v = work v ≡ work w

  -- Nothing is counted.
  abbrev pub IsQuiet : {A : Type 0} → Call W A → Type 0
  IsQuiet m = (w : W) → Ends (λ _ v. Same w v) (λ v. Same w v) (m w)

  -- One is counted, if the call returns.
  abbrev pub CountsOne : {A : Type 0} → Call W A → Type 0
  CountsOne m = (w : W) → Ends (λ _ v. work v ≡ work w + 1) (λ v. Same w v) (m w)

  -- Nothing is counted, and the call returns.
  abbrev pub IsSilent : {A : Type 0} → Call W A → Type 0
  IsSilent m = (w : W) → Returns (λ _ v. Same w v) (m w)

  pub quiet_bind :
      {A B : Type 0} {m : Call W A} {f : A → Call W B}
      → IsQuiet m
      → ((a : A) → IsQuiet (f a))
      → IsQuiet (m >>= f)
  quiet_bind {f = f} h k w =
      >>=-Ends f (h w) (λ a v e. Ends-map (λ b u p. p ∙ e) (λ u p. p ∙ e) (k a v))

  pub counts_bind :
      {A B : Type 0} {m : Call W A} {f : A → Call W B}
      → IsQuiet m
      → ((a : A) → CountsOne (f a))
      → CountsOne (m >>= f)
  counts_bind {f = f} h k w =
      >>=-Ends f (h w) (λ a v e. Ends-map (λ b u p. p ∙ ap (λ n. n + 1) e) (λ u p. p ∙ e) (k a v))

  -- After the one that is counted, nothing throws.
  pub one_bind :
      {A B : Type 0} {m : Call W A} {f : A → Call W B}
      → CountsOne m
      → ((a : A) → IsSilent (f a))
      → CountsOne (m >>= f)
  one_bind {f = f} h k w =
      >>=-Ends f (h w) (λ a v e. Ends-map (λ b u p. p ∙ e) (λ u never. absurd never) (k a v))

  pub IsSilent-bind :
      {A B : Type 0} {m : Call W A} {f : A → Call W B}
      → IsSilent m
      → ((a : A) → IsSilent (f a))
      → IsSilent (m >>= f)
  IsSilent-bind {f = f} h k w =
      >>=-Ends f (h w) (λ a v e. Ends-map (λ b u p. p ∙ e) (λ u never. never) (k a v))

  pub quiet : {A : Type 0} {m : Call W A} → IsSilent m → IsQuiet m
  quiet h w = Ends-map (λ a u p. p) (λ u never. absurd never) (h w)

  pub quiet_attempt :
      {A : Type 0} {m : Call W A} {f : Text → Call W A}
      → IsQuiet m
      → ((e : Text) → IsQuiet (f e))
      → IsQuiet (attempt m f)
  quiet_attempt {f = f} h k w =
      attempt-Ends f (h w) (λ e v same. Ends-map (λ a u p. p ∙ same) (λ u p. p ∙ same) (k e v))

  pub IsSilent-pure : {A : Type 0} (a : A) → IsSilent (pure a)
  IsSilent-pure a w = returned refl

  pub quiet_raise : {A : Type 0} (e : Text) → IsQuiet (raise {A = A} e)
  quiet_raise e w = threw refl

  -- A call that only reads.
  pub quiet_read : {A : Type 0} (f : W → A) → IsQuiet (λ w. (ok (f w), w))
  quiet_read f w = returned refl
