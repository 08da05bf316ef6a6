-- ===== src/Serializer.antt =====
-- pjsr/lib/ProcessSerializer.js: a configured process as plain data, and back. `N` is the type of
-- JavaScript's numbers: the code copies them and never computes with them. A process instance is its
-- id and its parameters; what PixInsight provides is an argument: `create` for `new <Process>` and
-- `to_source` for the source listing of an instance.
pub mod Listing
pub mod Checks
pub mod Accepts
pub mod RoundTrip
use distributed_wbpp.Prelude.{
  Bool, true, false, not, ◌&&◌, ◌||◌, Option, none, some, List, [], ◌∷◌, ◌++◌, Text, text, Outcome,
  ok, throw, throw_if, ◌>>=◌, ◌>>◌, same_text, has_text, if◌then◌else◌, is_empty,
}
use distributed_wbpp.Serializer.Listing.{parameter_names}

-- What `typeof` says of a scalar.
pub data Kind : Type 0 where
  number boolean string : Kind

pub data Scalar (N : Type 0) : Type 0 where
  num : N → Scalar N
  bool : Bool → Scalar N
  str : Text → Scalar N

-- A JavaScript value as the code looks at it: null or undefined, a scalar, an object whose `length` is
-- a number with its elements, any other object.
mutual
  pub data Value (N : Type 0) : Type 0 where
    absent : Value N
    scalar : Scalar N → Value N
    sized : Elems N → Value N
    object : Value N

  pub data Elems (N : Type 0) : Type 0 where
    nil : Elems N
    cons : Value N → Elems N → Elems N

-- A plain copy: a scalar or a table of scalars.
pub data Plain (N : Type 0) : Type 0 where
  one : Scalar N → Plain N
  table : List (List (Scalar N)) → Plain N

pub record Instance (N : Type 0) : Type 0 where
  pub id : Text
  pub fields : Text → Value N

-- What `serializeProcess` returns, and what a worker finds in a manifest, where the values are any.
pub record Description (N : Type 0) : Type 0 where
  pub id : Text
  pub params : List (Text × Plain N)

pub record Incoming (N : Type 0) : Type 0 where
  pub id : Text
  pub params : List (Text × Value N)

pub record Rebuilt (N : Type 0) : Type 0 where
  pub process : Instance N
  pub known : List Text

abbrev pub allowlist : List Text
allowlist =
    text "StarAlignment"
    ∷ text "ImageCalibration"
    ∷ text "LocalNormalization"
    ∷ text "ImageIntegration"
    ∷ text "DrizzleIntegration"
    ∷ []

abbrev pub kind_name : Kind → Text
kind_name number = text "number"
kind_name boolean = text "boolean"
kind_name string = text "string"

abbrev pub same_kind : Kind → Kind → Bool
same_kind number number = true
same_kind boolean boolean = true
same_kind string string = true
same_kind _ _ = false

abbrev pub cons_row : {A : Type 0} → A → Option (List A) → Option (List A)
cons_row x none = none
cons_row x (some xs) = some (x ∷ xs)

module _ {N : Type 0} where
  abbrev pub kind : Scalar N → Kind
  kind (num n) = number
  kind (bool b) = boolean
  kind (str s) = string

  -- `__wbppIsScalar`
  abbrev pub is_scalar : Value N → Bool
  is_scalar (scalar s) = true
  is_scalar _ = false

  -- A string has a length, and its elements are one-unit strings.
  abbrev pub units : Text → List (Scalar N)
  units [] = []
  units (c ∷ s) = str (c ∷ []) ∷ units s

  -- The inner loop: the cells of one row.
  unfoldable pub plain_cells : Elems N → Option (List (Scalar N))
  plain_cells nil = some []
  plain_cells (cons (scalar s) es) = cons_row s (plain_cells es)
  plain_cells (cons _ es) = none

  unfoldable pub plain_row : Value N → Option (List (Scalar N))
  plain_row (sized es) = plain_cells es
  plain_row (scalar (str s)) = some (units s)
  plain_row _ = none

  abbrev pub add_row :
      Option (List (Scalar N)) → Option (List (List (Scalar N))) → Option (List (List (Scalar N)))
  add_row none rest = none
  add_row (some r) rest = cons_row r rest

  -- The outer loop.
  unfoldable pub plain_rows : Elems N → Option (List (List (Scalar N)))
  unfolding plain_row plain_cells
  plain_rows nil = some []
  plain_rows (cons v es) = add_row (plain_row v) (plain_rows es)

  abbrev pub as_table : Option (List (List (Scalar N))) → Option (Plain N)
  as_table none = none
  as_table (some rows) = some (table rows)

  -- `__wbppPlainValue`; `undefined` is `none`.
  unfoldable pub plain_value : Value N → Option (Plain N)
  unfolding plain_rows
  plain_value (scalar s) = some (one s)
  plain_value (sized es) = as_table (plain_rows es)
  plain_value _ = none

  abbrev pub is_some : Option (Plain N) → Bool
  is_some none = false
  is_some (some _) = true

  unfoldable pub set_field : Text → Value N → Instance N → Instance N
  set_field name v p = record p {
    fields = λ other. if same_text name other then v else p.fields other;
  }

  abbrev pub keep_param : Text → Option (Plain N) → List (Text × Plain N) → List (Text × Plain N)
  keep_param name none rest = rest
  keep_param name (some v) rest = (name, v) ∷ rest

  -- The loop of `serializeProcess`.
  unfoldable pub plain_params : (Text → Value N) → List Text → List (Text × Plain N)
  unfolding plain_value
  plain_params fields [] = []
  plain_params fields (name ∷ names) =
      keep_param name (plain_value (fields name)) (plain_params fields names)

  -- The check of one parameter against the default instance's value.
  unfoldable pub check_param : Text → Value N → Value N → Outcome (Unit {0})
  check_param path (scalar d) (scalar v) =
      throw_if (not (same_kind (kind v) (kind d)))
        (text "rejected job: " ++ (path ++ (text " must be a " ++ kind_name (kind d))))
  check_param path (scalar d) _ =
      throw (text "rejected job: " ++ (path ++ (text " must be a " ++ kind_name (kind d))))
  check_param path _ v =
      throw_if (not (is_some (plain_value v)) || is_scalar v)
        (text "rejected job: " ++ (path ++ text " must be a table"))

  -- The loop of `deserializeProcess` over the parameters.
  unfoldable pub assign_params :
      Text → List Text → List (Text × Value N) → Instance N → Outcome (Instance N)
  assign_params id known [] p = ok p
  assign_params id known ((name, v) ∷ rest) p =
      throw_if (not (has_text known name))
        (text "rejected job: unknown parameter " ++ (id ++ (text "." ++ name)))
      >> (check_param (id ++ (text "." ++ name)) (p.fields name) v
          >> assign_params id known rest (set_field name v p))

  module _ (create : Text → Instance N) (to_source : Instance N → Text) where
    unfoldable pub serialize_process : Instance N → Outcome (Description N)
    serialize_process p =
        throw_if (not (has_text allowlist p.id))
          (text "process " ++ (p.id ++ text " is not distributable"))
        >> ok (record { id = p.id; params = plain_params p.fields (parameter_names (to_source p)) })

    unfoldable pub deserialize_process : Option (Incoming N) → Text → Outcome (Rebuilt N)
    deserialize_process none expected = throw (text "rejected job: no process description")
    deserialize_process (some d) expected = do
      throw_if (not (has_text allowlist d.id))
          (text "rejected job: process '" ++ (d.id ++ text "' is not allowed"))
      throw_if (not (is_empty expected) && not (same_text d.id expected))
          (text "rejected job: expected " ++ (expected ++ (text ", got " ++ d.id)))
      let known = parameter_names (to_source (create d.id))
      p ← assign_params d.id known d.params (create d.id)
      ok (record { process = p; known = known })

-- `processHasParameter`; a name that is no string is `none`.
unfoldable pub process_has_parameter : {N : Type 0} → Rebuilt N → Option Text → Bool
process_has_parameter r none = false
process_has_parameter r (some name) = has_text r.known name
