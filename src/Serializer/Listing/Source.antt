-- ===== src/Serializer/Listing/Source.antt =====
-- Reading back a listing of the form that `toSource` gives: one assignment for each parameter, whose
-- value may go over several lines.
use distributed_wbpp.Prelude.{
  ℕ, zero, suc, ◌-◌, ◌≡◌, refl, sym, ◌∙◌, ap, Bool, true, false, not, ◌&&◌, none, some, List, [],
  ◌∷◌, ◌++◌, map, Text, text, arith, All, has_text, same_text_iff, length, length-append,
  append_assoc, ◌==◌, if◌then◌else◌,
}
use distributed_wbpp.Serializer.Listing.{
  is_newline, is_space, is_name_start, is_name_unit, skip_spaces, read_name, match_name, match_at,
  matches, inherited, unseen, parameter_names,
}
use distributed_wbpp.Serializer.Listing.Names.{IsName, NoRepeat}

-- The first unit that is no space, if there is one, is not the `P` of an assignment.
abbrev is_calm : Text → Bool
is_calm [] = true
is_calm (c ∷ s) = if is_space c then is_calm s else not (c == b'P')

-- No line after the first begins with an assignment to `P`.
abbrev pub is_quiet : Text → Bool
is_quiet [] = true
is_quiet (c ∷ s) = (if is_newline c then is_calm s else true) && is_quiet s

-- `P.<name> = <value>;`
abbrev pub assignment : Text → Text → Text
assignment name value = text "P." ++ (name ++ (text " = " ++ (value ++ text ";\n")))

abbrev pub assignments : List (Text × Text) → Text
assignments [] = []
assignments ((name, value) ∷ rest) = assignment name value ++ assignments rest

abbrev pub listing : Text → List (Text × Text) → Text
listing id ps = text "var P = new " ++ (id ++ (text ";\n" ++ assignments ps))

calm_head : (id : Text) → is_calm (text "var P = new " ++ id) ≡ true
unfolding is_space
calm_head id = refl

quiet_head : (id : Text) → is_quiet id ≡ true → is_quiet (text "var P = new " ++ id) ≡ true
unfolding is_newline
quiet_head id h = h

-- Names that are not seen, and not the new one either.
still_fresh :
    (n : Text) (seen ns : List Text)
    → has_text ns n ≡ false
    → All (λ m. has_text seen m ≡ false) ns
    → All (λ m. has_text (n ∷ seen) m ≡ false) ns
unfolding has_text
still_fresh n seen [] once h = tt
still_fresh n seen (m ∷ ns) once (fresh, h) =
    (ground (arith, same_text_iff m n, same_text_iff n m), still_fresh n seen ns (ground arith) h)

semicolon_no_match : (more : Text) → match_at (text ";\n" ++ more) ≡ none
unfolding match_at skip_spaces is_space
semicolon_no_match more = refl

calm_no_match : (v more : Text) → is_calm v ≡ true → match_at (v ++ (text ";\n" ++ more)) ≡ none
unfolding match_at skip_spaces
calm_no_match [] more h = semicolon_no_match more
calm_no_match (c ∷ s) more h = ground (arith, calm_no_match s more)

-- One step where no assignment begins.
matches_step :
    (bol : Bool) (c : ℕ) (s : Text)
    → (bol ≡ true → match_at (c ∷ s) ≡ none)
    → matches bol zero (c ∷ s) ≡ matches (is_newline c) zero s
unfolding matches
matches_step false c s h = refl
matches_step true c s h = rw (h refl, matches) refl

matches_quiet :
    (bol : Bool) (v more : Text)
    → (bol ≡ true → is_calm v ≡ true)
    → is_quiet v ≡ true
    → matches bol zero (v ++ (text ";\n" ++ more)) ≡ matches true zero more
unfolding is_newline
matches_quiet bol [] more h q =
    matches_step bol b';' (10 ∷ more) (λ _. semicolon_no_match more)
    ∙ matches_step false 10 more (λ e. absurd (ground arith))
matches_quiet bol (c ∷ s) more h q =
    matches_step bol c (s ++ (text ";\n" ++ more)) (λ b. calm_no_match (c ∷ s) more (h b))
    ∙ matches_quiet (is_newline c) s more (λ e. ground arith) (ground arith)

matches_skip :
    (bol : Bool) (zs : Text) (c : ℕ) (ys : Text)
    → matches bol (suc (length zs)) (zs ++ c ∷ ys) ≡ matches (is_newline c) zero ys
unfolding matches
matches_skip bol [] c ys = refl
matches_skip bol (z ∷ zs) c ys = matches_skip (is_newline z) zs c ys

read_name_stop :
    (s : Text) (more : Text)
    → All (λ u. is_name_unit u ≡ true) s
    → read_name (s ++ (text " = " ++ more)) ≡ (s, text " = " ++ more)
unfolding read_name is_name_unit is_name_start
read_name_stop [] more h = refl
read_name_stop (c ∷ s) more (h, t) = rw h (rw (read_name_stop s more t))

-- An assignment is matched up to its `=`.
match_assignment :
    (name more : Text)
    → IsName name
    → match_at (text "P." ++ (name ++ (text " = " ++ more))) ≡ some (name, text " " ++ more)
unfolding match_at skip_spaces is_space
match_assignment [] more h = elim h [ ]
match_assignment (c ∷ s) more (start, units) =
    rw (start, match_name) (rw (read_name_stop s more units, match_name) refl)

matches_found :
    (c : ℕ) (s name rest : Text)
    → match_at (c ∷ s) ≡ some (name, rest)
    → matches true zero (c ∷ s) ≡ name ∷ matches (is_newline c) (length s - length rest) s
unfolding matches
matches_found c s name rest e = rw (e, matches) refl

-- Past the match the scan goes on behind the `=`.
matches_behind :
    (bol : Bool) (zs rest : Text)
    → (let s = zs ++ b'=' ∷ rest in matches bol (length s - length rest) s)
      ≡ matches false zero rest
unfolding is_newline
matches_behind bol zs rest =
    let count : length (zs ++ b'=' ∷ rest) - length rest ≡ suc (length zs) =
      omega (arith, length-append zs (b'=' ∷ rest)) in
    rw count (matches_skip bol zs b'=' rest)

matches-assignment :
    (name value more : Text)
    → IsName name
    → is_quiet value ≡ true
    → matches true zero (assignment name value ++ more) ≡ name ∷ matches true zero more
unfolding is_newline
matches-assignment name value more h q =
    let rest : Text = text " " ++ (value ++ (text ";\n" ++ more)) in
    let after : Text = name ++ (text " = " ++ (value ++ (text ";\n" ++ more))) in
    let zs : Text = b'.' ∷ (name ++ text " ") in
    let regroup : assignment name value ++ more ≡ b'P' ∷ b'.' ∷ after =
      ap (λ t. b'P' ∷ b'.' ∷ t)
        (append_assoc name (text " = " ++ (value ++ text ";\n")) more
          ∙ ap (λ t. name ++ (text " = " ++ t)) (append_assoc value (text ";\n") more)) in
    let cut : b'.' ∷ after ≡ zs ++ b'=' ∷ rest =
      ap (λ t. b'.' ∷ t) (sym (append_assoc name (text " ") (b'=' ∷ rest))) in
    let found =
      matches_found b'P' (b'.' ∷ after) name rest
        (match_assignment name (value ++ (text ";\n" ++ more)) h) in
    let tail_matches =
      ap (λ s. matches (is_newline b'P') (length s - length rest) s) cut
      ∙ matches_behind (is_newline b'P') zs rest in
    ap (matches true zero) regroup ∙ found ∙ ap (λ ns. name ∷ ns) (tail_matches ∙ quiet_rest)
  where
    quiet_rest :
        matches false zero (text " " ++ (value ++ (text ";\n" ++ more))) ≡ matches true zero more
    quiet_rest = matches_quiet false (text " " ++ value) more (λ e. absurd (ground arith)) q

abbrev pub IsFit : Text × Text → Type 0
IsFit b = IsName b.0 × (is_quiet b.1 ≡ true)

matches-assignments :
    (ps : List (Text × Text))
    → All IsFit ps
    → matches true zero (assignments ps) ≡ map (λ b. b.0) ps
unfolding matches
matches-assignments [] h = refl
matches-assignments ((name, value) ∷ ps) ((is_name, quiet), h) =
    matches-assignment name value (assignments ps) is_name quiet
    ∙ ap (λ ns. name ∷ ns) (matches-assignments ps h)

unseen_fresh :
    (seen ns : List Text)
    → NoRepeat ns
    → All (λ n. has_text seen n ≡ false) ns
    → unseen seen ns ≡ ns
unfolding unseen
unseen_fresh seen [] u h = refl
unseen_fresh seen (n ∷ ns) (once, u) (fresh, h) =
    rw fresh (ap (λ r. n ∷ r) (unseen_fresh (n ∷ seen) ns u (still_fresh n seen ns once h)))

-- The names of a listing are read back in order: the parameters have identifiers as names, without
-- repetition and none that every object inherits, and no line of the id or of a value begins with an
-- assignment to `P`.
pub parameter_names-listing :
    (id : Text) (ps : List (Text × Text))
    → is_quiet id ≡ true
    → All IsFit ps
    → NoRepeat (map (λ b. b.0) ps)
    → All (λ n. has_text inherited n ≡ false) (map (λ b. b.0) ps)
    → parameter_names (listing id ps) ≡ map (λ b. b.0) ps
unfolding parameter_names
parameter_names-listing id ps quiet fit u own =
    ap (unseen inherited) (
      ap (matches true zero)
        (sym (append_assoc (text "var P = new ") id (text ";\n" ++ assignments ps)))
      ∙ matches_quiet true (text "var P = new " ++ id) (assignments ps) (λ e. calm_head id)
          (quiet_head id quiet)
      ∙ matches-assignments ps fit)
    ∙ unseen_fresh inherited _ u own
