-- ===== src/Serializer/Checks.antt =====
-- What a parameter may be assigned: a value of the default value's type.
use distributed_wbpp.Prelude.{◌≡◌, ◌≢◌, ◌↔◌, ◌∙◌, true, none, Text, ok, arith}
use distributed_wbpp.Serializer.{Kind, Value, scalar, kind, same_kind, plain_value, check_param}

-- What `typeof` and the scalar test tell of a value.
pub data Shape : Type 0 where
  of_kind : Kind → Shape
  other : Shape

same_kind_iff : (a b : Kind) → (same_kind a b ≡ true) ↔ (a ≡ b)
same_kind_iff a b = ground arith

module _ {N : Type 0} where
  abbrev pub shape : Value N → Shape
  shape (scalar s) = of_kind (kind s)
  shape _ = other

  -- A scalar of the default's kind, or a table where the default is no scalar.
  abbrev pub Fits : Value N → Value N → Type 0
  Fits def v = (shape v ≡ shape def) × (plain_value v ≢ none)

  -- A value passes the check against the default's exactly if it fits: a scalar of the same type where the
  -- default is a scalar, and else a value with a plain copy that is no scalar.
  pub check_param_iff :
      (path : Text) (def v : Value N) → (check_param path def v ≡ ok tt) ↔ Fits def v
  unfolding check_param plain_value
  check_param_iff path (scalar d) (scalar v) = ground (arith, same_kind_iff (kind v) (kind d))
  check_param_iff path _ _ = ground arith

  -- What fits a value that fits the default fits the default too.
  pub Fits-trans : (def v w : Value N) → Fits def v → Fits v w → Fits def w
  Fits-trans def v w h k = (k.0 ∙ h.0, k.1)
