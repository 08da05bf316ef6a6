-- ===== src/Key.antt =====
-- The cluster key of pjsr/DistributedWBPP.js: its canonical form, its display form, and the setting
-- that keeps it. A key text is a list of UTF-16 code units.
pub mod Normal
pub mod Layout
pub mod Dialog
pub mod Picked
use distributed_wbpp.Prelude.{
  ℕ, suc, ◌+◌, ◌-◌, Bool, true, false, ◌&&◌, ◌||◌, Option, none, some, List, [], ◌∷◌, ◌++◌, Text,
  Outcome, ok, throw, leb, ◌==◌, if◌then◌else◌, length, keep, text,
}

abbrev pub key_setting : Text
key_setting = text "DistributedWBPP/clusterKey"

abbrev pub between : ℕ → ℕ → ℕ → Bool
between lo hi c = leb lo c && leb c hi

-- [A-Z0-9]
unfoldable pub is_alnum : ℕ → Bool
is_alnum c = between b'A' b'Z' c || between b'0' b'9' c

-- [A-Z2-7]
unfoldable pub is_base32 : ℕ → Bool
is_base32 c = between b'A' b'Z' c || between b'2' b'7' c

-- What `.` does not match: \n, \r, U+2028 and U+2029.
unfoldable pub is_line_end : ℕ → Bool
is_line_end c = c == 10 || c == 13 || c == 8232 || c == 8233

abbrev pub every : (ℕ → Bool) → Text → Bool
every p [] = true
every p (c ∷ s) = p c && every p s

-- `text || ""`: null and undefined are `none`.
abbrev pub or_empty : Option Text → Text
or_empty none = []
or_empty (some t) = t

-- `special` is Unicode's case mapping of a code unit that is not ASCII (it may give several).
module _ (special : ℕ → Text) where
  unfoldable pub upper_unit : ℕ → Text
  upper_unit c =
      if leb 128 c then special c else if between b'a' b'z' c then (c - 32) ∷ [] else c ∷ []

  -- `toUpperCase()`
  unfoldable pub to_upper : Text → Text
  to_upper [] = []
  to_upper (c ∷ s) = upper_unit c ++ to_upper s

  -- `.toUpperCase().replace( /[^A-Z0-9]/g, "" )`
  unfoldable pub clean : Text → Text
  clean t = keep is_alnum (to_upper t)

  unfoldable pub normalize_key : Option Text → Option Text
  normalize_key t =
      let k = clean (or_empty t) in if every is_base32 k && (length k == 32) then some k else none

  -- `Settings.read` with its `lastReadOK`.
  unfoldable pub load_key : Option Text → Bool → Text
  load_key v last_read_ok = if last_read_ok then or_empty (normalize_key v) else []

  -- The end of `dwbppGenerateKey`: the sidecar did or did not start; the file that it wrote, if any.
  unfoldable pub generate_key : Bool → Option Text → Outcome Text
  generate_key started out =
      if started
      then (elim (out) [
        | none ↦ throw (text "could not generate a cluster key")
        | some t ↦ elim (normalize_key (some t)) [
          | none ↦ throw (text "could not generate a cluster key")
          | some k ↦ ok k
        ]
      ])
      else throw (text "the sidecar did not start")

abbrev flush : Text → List Text → List Text
flush [] gs = gs
flush (c ∷ s) gs = (c ∷ s) ∷ gs

-- `key.match( /.{1,4}/g )`; `cur` is the group that is being read.
unfoldable pub groups_from : Text → Text → List Text
groups_from cur [] = flush cur []
groups_from cur (c ∷ s) =
    let cut = flush cur (groups_from [] s) in
    let full = (cur ++ c ∷ []) ∷ groups_from [] s in
    let open_group = groups_from (cur ++ c ∷ []) s in
    if is_line_end c then cut else if length cur == 3 then full else open_group

unfoldable pub join : Text → List Text → Text
join sep [] = []
join sep (g ∷ []) = g
join sep (g ∷ h ∷ gs) = g ++ sep ++ join sep (h ∷ gs)

abbrev pub show_groups : List Text → Outcome Text
show_groups [] = throw (text "Cannot read properties of null (reading 'join')")
show_groups (g ∷ gs) = ok (join (text "-") (g ∷ gs))

-- `key.match( /.{1,4}/g ).join( "-" )`; `match` is null, and the call throws, if nothing matches.
unfoldable pub format_key : Text → Outcome Text
format_key key = show_groups (groups_from [] key)
