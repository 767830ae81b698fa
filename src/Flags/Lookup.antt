-- ===== src/Flags/Lookup.antt =====
-- The compiled tables against the list of definitions.
use go_posix.Base.{
  ℕ, suc, ◌+◌, ◌≤◌, ◌<◌, ◌≡◌, refl, ap, ◌∙◌, Bool, false, ◌&&◌, not, Option, none, some, List, [],
  ◌∷◌, ◌++◌, Bytes, beq, ltb, ◌==◌, if◌then◌else◌, get_elem?, length, arith, Bool-cases, inl, inr,
}
use go_posix.Flags.{
  FlagDef, FlagSpec, set_short, compile_short, compile_long, uint8, compile, def_at, lookup_short,
  find_long, lookup_long,
}

-- The definition's short name begins with `b`.
abbrev pub begins : ℕ → FlagDef → Bool
begins b d = elim d.short [ [] ↦ false | c ∷ s ↦ b == c ]

-- The last definition whose short name begins with `b`.
abbrev pub last_short : ℕ → List FlagDef → Option FlagDef
last_short b [] = none
last_short b (d ∷ ds) = elim (last_short b ds) [
  | some e ↦ some e
  | none ↦ if begins b d then some d else none
]

-- The first definition whose long name is `name`, where it has one.
abbrev pub first_long : Bytes → List FlagDef → Option FlagDef
first_long name [] = none
first_long name (d ∷ ds) =
    if not (beq d.long []) && beq d.long name then some d else first_long name ds

abbrev or_else : Option FlagDef → Option FlagDef → Option FlagDef
or_else (some d) e = some d
or_else none e = e

or_else-none : (o : Option FlagDef) → or_else o none ≡ o
or_else-none none = refl
or_else-none (some d) = refl

-- The rest `ds` of the definitions `defs` stands in them from index `i` on.
abbrev Stands : List FlagDef → ℕ → List FlagDef → Type 0
Stands defs i ds = (k : ℕ) → get_elem? ds k ≡ get_elem? defs (i + k)

Stands-tail :
    (defs : List FlagDef) (i : ℕ) (d : FlagDef) (ds : List FlagDef)
    → Stands defs i (d ∷ ds)
    → Stands defs (i + 1) ds
Stands-tail defs i d ds h k = h (suc k) ∙ ap (get_elem? defs) (omega arith)

Stands-head :
    (defs : List FlagDef) (i : ℕ) (d : FlagDef) (ds : List FlagDef)
    → Stands defs i (d ∷ ds)
    → some d ≡ get_elem? defs i
Stands-head defs i d ds h = h 0 ∙ ap (get_elem? defs) (omega arith)

set_short_lem :
    (defs : List FlagDef) (i : ℕ) (d : FlagDef) (ds : List FlagDef) (idx : ℕ → Option ℕ) (b : ℕ)
    → i < 128
    → b < 128
    → some d ≡ get_elem? defs i
    → def_at defs (set_short idx i d b) ≡ (if begins b d then some d else def_at defs (idx b))
unfolding set_short def_at
set_short_lem defs i d ds idx b hi hb h = ground arith

compile_short_lem :
    (defs : List FlagDef) (i : ℕ) (ds : List FlagDef) (idx : ℕ → Option ℕ) (b : ℕ)
    → i + length ds ≤ 128
    → b < 128
    → Stands defs i ds
    → def_at defs (compile_short i ds idx b) ≡ or_else (last_short b ds) (def_at defs (idx b))
unfolding compile_short
compile_short_lem defs i [] idx b hi hb h = refl
compile_short_lem defs i (d ∷ ds) idx b hi hb h = ground (
  arith,
  compile_short_lem defs (i + 1) ds (set_short idx i d) b (omega arith) hb
      (Stands-tail defs i d ds h),
  set_short_lem defs i d ds idx b (omega arith) hb (Stands-head defs i d ds h),
)

-- The table of short flags finds the last definition whose short name begins with the byte, as long
-- as every index fits in an `int8`.
lookup_short-compile :
    (s : FlagSpec) (b : ℕ)
    → length s.defs ≤ 128
    → lookup_short (compile s) b ≡ (if ltb b 128 then last_short b s.defs else none)
unfolding lookup_short compile
lookup_short-compile s b h = elim (Bool-cases (ltb b 128)) [
  | inl e ↦ rw e (
      compile_short_lem s.defs 0 s.defs (λ b. none) b (omega arith) (ground arith)
        (λ k. ap (get_elem? s.defs) (omega arith))
      ∙ or_else-none (last_short b s.defs))
  | inr e ↦ rw e
]

find_long_from : List FlagDef → Option ℕ → Option FlagDef → Option FlagDef
find_long_from defs (some k) later = get_elem? defs k
find_long_from defs none later = later

find_long-append :
    (es : List (Bytes × ℕ)) (n : Bytes) (i : ℕ) (name : Bytes)
    → find_long (es ++ (n, i) ∷ []) name
      ≡ elim (find_long es name) [ some k ↦ some k | none ↦ if beq n name then some i else none ]
unfolding find_long
find_long-append [] n i name = refl
find_long-append ((m, j) ∷ es) n i name = ground (arith, find_long-append es n i name)

compile_long_lem :
    (defs : List FlagDef) (i : ℕ) (ds : List FlagDef) (es : List (Bytes × ℕ)) (name : Bytes)
    → i + length ds ≤ 256
    → Stands defs i ds
    → def_at defs (find_long (compile_long i ds es) name)
      ≡ find_long_from defs (find_long es name) (first_long name ds)
unfolding compile_long find_long_from def_at uint8
compile_long_lem defs i [] es name hi h = ground arith
compile_long_lem defs i (d ∷ ds) es name hi h = ground (
  arith,
  compile_long_lem defs (i + 1) ds (if beq d.long [] then es else es ++ (d.long, i) ∷ []) name
      (omega arith) (Stands-tail defs i d ds h),
  find_long-append es d.long i name,
  Stands-head defs i d ds h,
)

-- The table of long flags finds the first definition of that long name, as long as every index fits
-- in a `uint8`.
lookup_long-compile :
    (s : FlagSpec) (name : Bytes)
    → length s.defs ≤ 256
    → lookup_long (compile s) name ≡ first_long name s.defs
unfolding lookup_long compile find_long_from find_long
lookup_long-compile s name h =
    compile_long_lem s.defs 0 s.defs [] name (omega arith)
      (λ k. ap (get_elem? s.defs) (omega arith))

-- With at most 128 definitions the table of short flags finds the last definition whose short name begins
-- with the byte, and the table of long flags the first definition of the long name.
pub lookup-compile :
    (s : FlagSpec) (b : ℕ) (name : Bytes)
    → length s.defs ≤ 128
    → (lookup_short (compile s) b ≡ (if ltb b 128 then last_short b s.defs else none))
      × (lookup_long (compile s) name ≡ first_long name s.defs)
lookup-compile s b name h = (lookup_short-compile s b h, lookup_long-compile s name (omega arith))
