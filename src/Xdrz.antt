-- ===== src/Xdrz.antt =====
-- The paths that a .xdrz file embeds: __xdrzServerPaths and __canonicalizeXdrz of pjsr/lib/WBPPShim.js, and
-- what drizzleIntegrate of pjsr/lib/WorkerRuntime.js writes in their place. The regular expressions
-- `/<Tag>[^<]*<\/Tag>/` and `/_r$/`, the first match only, are matchers here.

pub mod Stable
pub mod Again
pub mod Canonical
pub mod Paths
use distributed_wbpp.Prelude.{
  ℕ, suc, Bool, true, false, ◌&&◌, ◌||◌, Option, none, some, List, [], ◌∷◌, ◌++◌, Text, text,
  if◌then◌else◌, ◌==◌,
}

-- `s` without the prefix `p`.
unfoldable pub strip : Text → Text → Option Text
strip [] s = some s
strip (c ∷ p) [] = none
strip (c ∷ p) (d ∷ s) = let rest = strip p s in if c == d then rest else none

-- `[^<]*`, and what follows it.
unfoldable pub until_open : Text → Text × Text
until_open [] = ([], [])
until_open (c ∷ s) =
    let rest = until_open s in if c == 60 then ([], c ∷ s) else (c ∷ rest.0, rest.1)

abbrev pub open_tag : Text → Text
open_tag tag = 60 ∷ (tag ++ 62 ∷ [])

abbrev pub close_tag : Text → Text
close_tag tag = 60 ∷ 47 ∷ (tag ++ 62 ∷ [])

abbrev pub with_rest : Text → Option Text → Option (Text × Text)
with_rest inner none = none
with_rest inner (some rest) = some (inner, rest)

abbrev pub match_close : Text → Option Text → Option (Text × Text)
match_close tag none = none
match_close tag (some s) =
    let content = until_open s in with_rest content.0 (strip (close_tag tag) content.1)

-- An element at the front: its content and what follows it.
unfoldable pub match_element : Text → Text → Option (Text × Text)
unfolding strip until_open
match_element tag s = match_close tag (strip (open_tag tag) s)

-- `s.replace( /<Tag>([^<]*)<\/Tag>/, f )`; `f` is given the text before the match, the match's content
-- and the text after it.
abbrev replace_at : (Text → Text → Text → Text) → Text → ℕ → Text → Option (Text × Text) → Text
replace_at f before c later none = c ∷ later
replace_at f before c later (some (content, after)) = f before content after ++ after

unfoldable pub replace_from : Text → (Text → Text → Text → Text) → Text → Text → Text
unfolding match_element
replace_from tag f before [] = []
replace_from tag f before (c ∷ s) =
    replace_at f before c (replace_from tag f (before ++ c ∷ []) s) (match_element tag (c ∷ s))

-- A replacement string: `$$`, `$&`, "$`" and `$'` stand for a dollar, the match, what is before it and
-- what is after it. The expressions used have no groups, so `$1` stands for itself.
abbrev pub expand_one : Text → Text → Text → ℕ → Option Text
expand_one before matched after c =
    if c == 36
    then some (36 ∷ [])
    else if c == 38
    then some matched
    else if c == 96
    then some before
    else if c == 39
    then some after
    else none

abbrev pub put_expanded : ℕ → Text → Text → Option Text → Text
put_expanded c rest shifted none = 36 ∷ rest
put_expanded c rest shifted (some t) = t ++ shifted

unfoldable pub expand : Text → Text → Text → Text → Text
expand before matched after [] = []
expand before matched after (c ∷ []) = c ∷ []
expand before matched after (c ∷ d ∷ s) =
    let rest = expand before matched after (d ∷ s) in
    let shifted = expand before matched after s in
    if c == 36 then put_expanded d rest shifted (expand_one before matched after d) else c ∷ rest

abbrev pub element : Text → Text → Text
element tag content = open_tag tag ++ (content ++ close_tag tag)

-- `nt.replace( /<Tag>[^<]*<\/Tag>/, "<Tag>" + path + "</Tag>" )`
unfoldable pub replace_by_string : Text → Text → Text → Text
unfolding replace_from expand
replace_by_string tag path s =
    replace_from tag
      (λ before content after. expand before (element tag content) after (element tag path)) [] s

abbrev pub source_image : Text
source_image = text "SourceImage"

abbrev pub target_image : Text
target_image = text "AlignmentTargetImage"

-- The new text of __canonicalizeXdrz. The Boolean arguments say which of the two files exist.
unfoldable pub canonical_text : Text → Bool → Text → Bool → Text → Text
unfolding replace_by_string
canonical_text cal has_cal reg has_reg s =
    let t = if has_cal then replace_by_string source_image cal s else s in
    if has_reg then replace_by_string target_image reg t else t

-- `s.replace( /_r$/, "" )`
unfoldable pub without_r : Text → Text
without_r [] = []
without_r (c ∷ []) = c ∷ []
without_r (c ∷ d ∷ []) = if (c == 95) && (d == 114) then [] else c ∷ d ∷ []
without_r (c ∷ d ∷ e ∷ s) = c ∷ without_r (d ∷ e ∷ s)

-- `s.replace( "/registered/", "/calibrated/" )`
abbrev pub replace_first_at : Text → ℕ → Text → Option Text → Text
replace_first_at to c later none = c ∷ later
replace_first_at to c later (some rest) = to ++ rest

unfoldable pub replace_first : Text → Text → Text → Text
unfolding strip
replace_first from to [] = []
replace_first from to (c ∷ s) = replace_first_at to c (replace_first from to s) (strip from (c ∷ s))

-- __xdrzServerPaths; `dir` is the drive and the directory of the file, and `stem` its name.
unfoldable pub server_paths : Text → Text → Text × Text
unfolding replace_first without_r
server_paths dir stem = (
  replace_first (text "/registered/") (text "/calibrated/") dir
      ++ (text "/" ++ (without_r stem ++ text ".xisf")),
  dir ++ (text "/" ++ (stem ++ text ".xisf")),
)

-- `s.replace( /\\/g, "/" )`
unfoldable pub slashes : Text → Text
slashes [] = []
slashes (c ∷ s) = (if c == 92 then 47 else c) ∷ slashes s

-- After the last "/", or all of it.
unfoldable pub after_last : Text → Option Text
after_last [] = none
after_last (c ∷ s) = elim (after_last s) [
  | some t ↦ some t
  | none ↦ if c == 47 then some s else none
]

abbrev pub last_or : Text → Option Text → Text
last_or s none = s
last_or s (some t) = t

-- `baseNameOf`
unfoldable pub base_name : Text → Text
unfolding after_last slashes
base_name p = last_or (slashes p) (after_last (slashes p))

-- The text that drizzleIntegrate writes back. A function gives the replacement: `$` means nothing in it.
unfoldable pub local_text : Text → Text → Text
unfolding replace_from base_name
local_text data_dir s =
    let local : Text → Text → Text → Text → Text =
      λ tag before content after. element tag (data_dir ++ (text "/" ++ base_name content)) in
    replace_from target_image (local target_image) []
      (replace_from source_image (local source_image) [] s)
