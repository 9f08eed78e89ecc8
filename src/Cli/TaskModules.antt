-- ===== src/Cli/TaskModules.antt =====
-- The task modules that `miniq worker --app` of src/miniq/cli.py names, and Python's split and
-- strip.
use Prim.Native.Char.{Char, code}
use miniq.Base.{
  ◌==◌, leb, if◌then◌else◌, ◌≡◌, refl, ap, ◌∙◌, inl, inr, Bool, Bool-cases, true, false, ◌&&◌, ◌||◌,
  not, Option, none, some, List, [], ◌∷◌, map, select, All,
}
use miniq.Base.{String}

-- `str.isspace` of one character
unfoldable pub is_space : Char → Bool
is_space c =
    let n = code c in
    (leb 9 n && leb n 13)
    || (leb 28 n && leb n 32)
    || n == 133
    || n == 160
    || n == 5760
    || (leb 8192 n && leb n 8202)
    || n == 8232
    || n == 8233
    || n == 8239
    || n == 8287
    || n == 12288

abbrev pub is_comma : Char → Bool
is_comma c = code c == 44

abbrev pub onto_first : Char → List String → List String
onto_first c [] = String.◌∷◌ c String.[] ∷ []
onto_first c (part ∷ parts) = String.◌∷◌ c part ∷ parts

-- `app.split(",")`
unfoldable pub split_commas : String → List String
split_commas String.[] = String.[] ∷ []
split_commas (String.◌∷◌ c s) =
    let parts = split_commas s in if is_comma c then String.[] ∷ parts else onto_first c parts

unfoldable pub strip_left : String → String
strip_left String.[] = String.[]
strip_left (String.◌∷◌ c s) = let rest = strip_left s in if is_space c then rest else String.◌∷◌ c s

abbrev pub is_empty : String → Bool
is_empty String.[] = true
is_empty (String.◌∷◌ _ _) = false

unfoldable pub strip_right : String → String
strip_right String.[] = String.[]
strip_right (String.◌∷◌ c s) =
    let rest = strip_right s in if is_space c && is_empty rest then String.[] else String.◌∷◌ c rest

-- `m.strip()`
unfoldable pub strip : String → String
strip s = strip_right (strip_left s)

-- `task_modules` of `cmd_worker`, from `args.app`.
unfoldable pub task_modules : Option String → List String
task_modules none = []
task_modules (some app) = select (λ m. not (is_empty m)) (map strip (split_commas app))

-- No comma stands in the text.
abbrev pub HasNoComma : String → Type 0
HasNoComma String.[] = Unit
HasNoComma (String.◌∷◌ c s) = (is_comma c ≡ false) × HasNoComma s

onto_first-HasNoComma :
    (c : Char) (parts : List String)
    → is_comma c ≡ false
    → All HasNoComma parts
    → All HasNoComma (onto_first c parts)
onto_first-HasNoComma c [] e h = ((e, tt), tt)
onto_first-HasNoComma c (part ∷ parts) e h = ((e, h.0), h.1)

split_commas-HasNoComma : (s : String) → All HasNoComma (split_commas s)
unfolding split_commas
split_commas-HasNoComma String.[] = (tt, tt)
split_commas-HasNoComma (String.◌∷◌ c s) = elim (Bool-cases (is_comma c)) [
  | inl e ↦ rw e (tt, split_commas-HasNoComma s)
  | inr e ↦ rw e (onto_first-HasNoComma c (split_commas s) e (split_commas-HasNoComma s))
]

strip_left-HasNoComma : (s : String) → HasNoComma s → HasNoComma (strip_left s)
unfolding strip_left
strip_left-HasNoComma String.[] h = tt
strip_left-HasNoComma (String.◌∷◌ c s) h = elim (Bool-cases (is_space c)) [
  | inl e ↦ rw e (strip_left-HasNoComma s h.1)
  | inr e ↦ rw e h
]

strip_right-HasNoComma : (s : String) → HasNoComma s → HasNoComma (strip_right s)
unfolding strip_right
strip_right-HasNoComma String.[] h = tt
strip_right-HasNoComma (String.◌∷◌ c s) h =
    elim (Bool-cases (is_space c && is_empty (strip_right s))) [
      | inl e ↦ rw e tt
      | inr e ↦ rw e (h.0, strip_right-HasNoComma s h.1)
    ]

-- The text does not begin with a space.
abbrev BeginsClean : String → Type 0
BeginsClean String.[] = Unit
BeginsClean (String.◌∷◌ c s) = is_space c ≡ false

strip_left-BeginsClean : (s : String) → BeginsClean (strip_left s)
unfolding strip_left
strip_left-BeginsClean String.[] = tt
strip_left-BeginsClean (String.◌∷◌ c s) = elim (Bool-cases (is_space c)) [
  | inl e ↦ rw e (strip_left-BeginsClean s)
  | inr e ↦ rw e e
]

strip_right-BeginsClean : (s : String) → BeginsClean s → BeginsClean (strip_right s)
unfolding strip_right
strip_right-BeginsClean String.[] h = tt
strip_right-BeginsClean (String.◌∷◌ c s) h = rw h h

BeginsClean-strip_left : (s : String) → BeginsClean s → strip_left s ≡ s
unfolding strip_left
BeginsClean-strip_left String.[] h = refl
BeginsClean-strip_left (String.◌∷◌ c s) h = rw h refl

strip_right-strip_right : (s : String) → strip_right (strip_right s) ≡ strip_right s
unfolding strip_right
strip_right-strip_right String.[] = refl
strip_right-strip_right (String.◌∷◌ c s) =
    elim (Bool-cases (is_space c && is_empty (strip_right s))) [
      | inl e ↦ rw e refl
      | inr e ↦ rw (e, strip_right, strip_right-strip_right s, e) refl
    ]

strip-strip : (s : String) → strip (strip s) ≡ strip s
unfolding strip
strip-strip s =
    let clean = strip_right-BeginsClean (strip_left s) (strip_left-BeginsClean s) in
    ap strip_right (BeginsClean-strip_left (strip_right (strip_left s)) clean)
    ∙ strip_right-strip_right (strip_left s)

-- A name that is not empty, has no comma, and no space before or after it.
abbrev pub IsModuleName : String → Type 0
IsModuleName m = (is_empty m ≡ false) × HasNoComma m × (strip m ≡ m)

parts-IsModuleName :
    (parts : List String)
    → All HasNoComma parts
    → All IsModuleName (select (λ m. not (is_empty m)) (map strip parts))
unfolding strip
parts-IsModuleName [] h = tt
parts-IsModuleName (part ∷ parts) h = elim (Bool-cases (is_empty (strip part))) [
  | inl e ↦ rw e (parts-IsModuleName parts h.1)
  | inr e ↦ rw e (
    (
      e,
      strip_right-HasNoComma (strip_left part) (strip_left-HasNoComma part h.0),
      strip-strip part,
    ),
    parts-IsModuleName parts h.1,
  )
]

-- Whatever --app is, each module that `cmd_worker` passes to the pool has a name that is not empty,
-- holds no comma, and has no space before or after it.
pub task_modules-IsModuleName : (app : Option String) → All IsModuleName (task_modules app)
unfolding task_modules
task_modules-IsModuleName none = tt
task_modules-IsModuleName (some app) =
    parts-IsModuleName (split_commas app) (split_commas-HasNoComma app)
