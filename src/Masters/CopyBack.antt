-- ===== src/Masters/CopyBack.antt =====
-- Which files the copies of finalizeLightMaster in pjsr/lib/WBPPShim.js write, of those that captureII kept.
use distributed_wbpp.Prelude.{
  ◌+◌, ◌≡◌, ◌≢◌, refl, inl, inr, Bool, Option, none, some, List, [], ◌∷◌, Text, ok, All, Bool-cases,
  if◌then◌else◌, same_text,
}
use distributed_wbpp.Calls.{Call, pure, ◌>>=◌, ◌>>◌, Keeps, bind-Keeps, attempt-Keeps}
use distributed_wbpp.Windows.{Engine, entry, put_entry}
use distributed_wbpp.Captures.{cell_or_empty, is_there, xdrz_of}
use distributed_wbpp.Masters.{copy_one, copy_back}

-- A removal and a copy leave all files alone but their target.
pub record LeavesOthers {W V : Type 0} (E : Engine W) (content : Text → W → V) : Type 0 where
  pub remove :
      (f target : Text) (w : W) → f ≢ target → content f (E.remove_file target w).1 ≡ content f w
  pub copy :
      (f target source : Text) (w : W)
      → f ≢ target
      → content f (E.copy_file target source w).1 ≡ content f w

-- A file that is no value of a table.
abbrev NotIn : Text → List (Text × Text) → Type 0
NotIn f m = All (λ e. f ≢ e.1) m

put_entry-NotIn :
    (f k v : Text) (m : List (Text × Text)) → f ≢ v → NotIn f m → NotIn f (put_entry k v m)
unfolding put_entry
put_entry-NotIn f k v [] h n = (h, tt)
put_entry-NotIn f k v ((j, u) ∷ m) h (a, n) = elim (Bool-cases (same_text j k)) [
  | inl e ↦ rw (e, put_entry) (h, n)
  | inr e ↦ rw (e, put_entry) (a, put_entry-NotIn f k v m h n)
]

xdrz_of-NotIn :
    (exists : Text → Bool) (base_of : Text → Text) (f : Text) (rows : List (List Text))
    (found : List (Text × Text))
    → All (λ row. f ≢ cell_or_empty row 2) rows
    → NotIn f found
    → NotIn f (xdrz_of exists base_of rows found)
unfolding xdrz_of
xdrz_of-NotIn exists base_of f [] found h n = n
xdrz_of-NotIn exists base_of f (row ∷ rows) found (a, h) n =
    let dz = cell_or_empty row 2 in
    elim (Bool-cases (is_there exists dz)) [
      | inl e ↦
          rw (e, xdrz_of)
            (xdrz_of-NotIn exists base_of f rows (put_entry (base_of dz) dz found) h
              (put_entry-NotIn f (base_of dz) dz found a n))
      | inr e ↦ rw (e, xdrz_of) (xdrz_of-NotIn exists base_of f rows found h n)
    ]

-- A target that is looked up is another file.
abbrev IsOther : Text → Option Text → Type 0
IsOther f none = Unit
IsOther f (some t) = f ≢ t

entry-IsOther : (f key : Text) (m : List (Text × Text)) → NotIn f m → IsOther f (entry key m)
unfolding entry
entry-IsOther f key [] n = tt
entry-IsOther f key ((k, v) ∷ m) (a, n) = elim (Bool-cases (same_text k key)) [
  | inl e ↦ rw (e, entry) a
  | inr e ↦ rw (e, entry) (entry-IsOther f key m n)
]

module _ {W V : Type 0} (E : Engine W) (content : Text → W → V) (L : LeavesOthers E content) where
  replace-Keeps :
      (f target : Text)
      → f ≢ target
      → Keeps
          (content f)
          (λ s. if E.file_exists target s then E.remove_file target s else (ok tt, s))
  replace-Keeps f target h w = elim (Bool-cases (E.file_exists target w)) [
    | inl e ↦ rw e (L.remove f target w h)
    | inr e ↦ rw e refl
  ]

  copy_one-Keeps :
      (f : Text) (target : Option Text) (source : Text)
      → IsOther f target
      → Keeps (content f) (copy_one E target source)
  unfolding copy_one
  copy_one-Keeps f none source h w = refl
  copy_one-Keeps f (some target) source h w =
      let first : Call W (Unit {0}) =
        λ s. if E.file_exists target s then E.remove_file target s else (ok tt, s) in
      attempt-Keeps (content f) (first >> (E.copy_file target source >> pure 1)) (λ e. pure 0)
        (bind-Keeps (content f) first (λ _. E.copy_file target source >> pure 1)
          (replace-Keeps f target h)
          (λ _.
            bind-Keeps (content f) (E.copy_file target source) (λ _. pure 1)
              (λ w. L.copy f target source w h) (λ _ w. refl)))
        (λ e w. refl) w

  updates-Keeps :
      (f : Text) (by_base updated : List (Text × Text))
      → NotIn f by_base
      → Keeps (content f) (copy_back E by_base updated)
  unfolding copy_back
  updates-Keeps f by_base [] n w = refl
  updates-Keeps f by_base ((base, source) ∷ updated) n w =
      bind-Keeps (content f) (copy_one E (entry base by_base) source)
        (λ a. copy_back E by_base updated >>= λ b. pure (a + b))
        (copy_one-Keeps f (entry base by_base) source (entry-IsOther f base by_base n))
        (λ a.
          bind-Keeps (content f) (copy_back E by_base updated) (λ b. pure (a + b))
            (updates-Keeps f by_base updated n) (λ b w. refl))
        w

  -- Whatever the outputs of a light integration are called, and whether the copies fail or not: the copies
  -- over the originals write no file that is not named as a drizzle file by the rows of the process that was
  -- captured, where a removal and a copy change only their target.
  pub copy_back-Keeps :
      (exists : Text → Bool) (rows : List (List Text)) (updated : List (Text × Text)) (f : Text)
      (w : W)
      → All (λ row. f ≢ cell_or_empty row 2) rows
      → content f (copy_back E (xdrz_of exists E.base_of rows []) updated w).1 ≡ content f w
  copy_back-Keeps exists rows updated f w h =
      updates-Keeps f (xdrz_of exists E.base_of rows []) updated
        (xdrz_of-NotIn exists E.base_of f rows [] h tt) w
