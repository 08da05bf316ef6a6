-- ===== src/Serializer/Listing.antt =====
-- `processParameterNames` of pjsr/lib/ProcessSerializer.js: the names that a source listing assigns,
-- by the expression /^\s*P\.([A-Za-z_][A-Za-z0-9_]*)\s*=/gm. Its parts are deterministic, since no
-- part can begin with what the part before it repeats, so the greedy match is the only one.
pub mod Names
pub mod Source
use distributed_wbpp.Prelude.{
  ℕ, zero, suc, ◌-◌, Bool, true, false, not, ◌&&◌, ◌||◌, Option, none, some, List, [], ◌∷◌, ◌++◌,
  Text, text, has_text, leb, ◌==◌, if◌then◌else◌, length,
}

-- The line terminators, after which `^` matches under the flag m.
unfoldable pub is_newline : ℕ → Bool
is_newline c = c == 10 || c == 13 || c == 8232 || c == 8233

-- `\s`
unfoldable pub is_space : ℕ → Bool
is_space c =
    (leb 9 c && leb c 13)
    || c == 32
    || c == 160
    || c == 5760
    || (leb 8192 c && leb c 8202)
    || c == 8232
    || c == 8233
    || c == 8239
    || c == 8287
    || c == 12288
    || c == 65279

-- [A-Za-z_] and [A-Za-z0-9_]
unfoldable pub is_name_start : ℕ → Bool
is_name_start c = (leb b'A' c && leb c b'Z') || (leb b'a' c && leb c b'z') || c == b'_'

unfoldable pub is_name_unit : ℕ → Bool
is_name_unit c = is_name_start c || (leb b'0' c && leb c b'9')

unfoldable pub skip_spaces : Text → Text
skip_spaces [] = []
skip_spaces (c ∷ s) = let rest = skip_spaces s in if is_space c then rest else c ∷ s

-- The longest run of name units, and what follows it.
unfoldable pub read_name : Text → Text × Text
read_name [] = ([], [])
read_name (c ∷ s) =
    let longer : Text × Text = (c ∷ (read_name s).0, (read_name s).1) in
    if is_name_unit c then longer else ([], c ∷ s)

-- `\s*=`, where the match ends.
unfoldable pub match_equals : Text → Option Text
unfolding skip_spaces
match_equals s = elim (skip_spaces s) [
  | [] ↦ none
  | c ∷ rest ↦ if c == b'=' then some rest else none
]

abbrev pub named : Text → Option Text → Option (Text × Text)
named name none = none
named name (some rest) = some (name, rest)

-- The name after `P.`, and what follows the match.
unfoldable pub match_name : Text → Option (Text × Text)
unfolding read_name match_equals
match_name [] = none
match_name (c ∷ s) =
    if is_name_start c then named (c ∷ (read_name s).0) (match_equals (read_name s).1) else none

abbrev pub match_dot : Text → Option (Text × Text)
match_dot [] = none
match_dot (c ∷ s) = if c == b'.' then match_name s else none

abbrev pub match_p : Text → Option (Text × Text)
match_p [] = none
match_p (c ∷ s) = if c == b'P' then match_dot s else none

-- One try of the expression at a line's begin.
unfoldable pub match_at : Text → Option (Text × Text)
unfolding match_name
match_at s = match_p (skip_spaces s)

-- The loop of `re.exec`: `bol` says that `^` matches here, `skip` how many units of the last match
-- are left to pass over.
unfoldable pub matches : Bool → ℕ → Text → List Text
matches bol skip [] = []
matches bol (suc skip) (c ∷ s) = matches (is_newline c) skip s
matches false zero (c ∷ s) = matches (is_newline c) zero s
matches true zero (c ∷ s) = elim (match_at (c ∷ s)) [
  | none ↦ matches (is_newline c) zero s
  | some (name, rest) ↦ name ∷ matches (is_newline c) (length s - length rest) s
]

-- What every object inherits: `seen[ name ]` is truthy for these from the start.
abbrev pub inherited : List Text
inherited =
    text "constructor"
    ∷ text "__defineGetter__"
    ∷ text "__defineSetter__"
    ∷ text "hasOwnProperty"
    ∷ text "__lookupGetter__"
    ∷ text "__lookupSetter__"
    ∷ text "isPrototypeOf"
    ∷ text "propertyIsEnumerable"
    ∷ text "toString"
    ∷ text "valueOf"
    ∷ text "__proto__"
    ∷ text "toLocaleString"
    ∷ []

-- The names not seen yet, in order.
unfoldable pub unseen : List Text → List Text → List Text
unseen seen [] = []
unseen seen (n ∷ ns) =
    let rest = unseen seen ns in
    let fresh = n ∷ unseen (n ∷ seen) ns in if has_text seen n then rest else fresh

unfoldable pub parameter_names : Text → List Text
unfolding matches match_at unseen
parameter_names src = unseen inherited (matches true zero src)
