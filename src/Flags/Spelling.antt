-- ===== src/Flags/Spelling.antt =====
-- The ways to spell one command line: clusters, inline values and values of their own.
use go_posix.Base.{
  ℕ, ◌≡◌, ◌≢◌, refl, sym, ◌∙◌, none, some, [], ◌∷◌, ◌++◌, Bytes, beq, Lacks, arith, ok,
}
use go_posix.Flags.{
  FlagDef, flag_bool, flag_value, Args, ParseResult, CompiledSpec, lookup_short, lookup_long,
  split_eq, parse_short, parse_long, round, parse_from, classify, store_short, set_bool, short_arg,
  long_arg,
}
use go_posix.Flags.Total.{continue}
use go_posix.Flags.Steps.{parse_from_step}

abbrev dash : ℕ
dash = b'-'

flag_value-ne-flag_bool : flag_value ≢ flag_bool
flag_value-ne-flag_bool = ground arith

classify_short :
    (b : ℕ) (chars : Bytes) → b ≢ dash → classify (dash ∷ b ∷ chars) ≡ short_arg (b ∷ chars)
unfolding classify
classify_short b chars h = ground arith

classify_long : (c : ℕ) (s : Bytes) → classify (dash ∷ dash ∷ c ∷ s) ≡ long_arg (c ∷ s)
unfolding classify beq
classify_long c s = refl

parse_from_short :
    (cs : CompiledSpec) (b : ℕ) (chars : Bytes) (rest : Args) (res : ParseResult)
    → b ≢ dash
    → parse_from cs ((dash ∷ b ∷ chars) ∷ rest) res
      ≡ continue (parse_short cs (b ∷ chars) rest res) (parse_from cs)
unfolding round parse_short
parse_from_short cs b chars rest res h = rw (parse_from_step, round, classify_short b chars h)

parse_from_long :
    (cs : CompiledSpec) (c : ℕ) (s : Bytes) (rest : Args) (res : ParseResult)
    → parse_from cs ((dash ∷ dash ∷ c ∷ s) ∷ rest) res
      ≡ continue (parse_long cs (c ∷ s) rest res) (parse_from cs)
unfolding round parse_long
parse_from_long cs c s rest res = rw (parse_from_step, round, classify_long c s)

-- The loop of `parseShort` on a Boolean flag goes on with the rest of the cluster.
parse_short_bool :
    (cs : CompiledSpec) (d : FlagDef) (b : ℕ) (chars : Bytes) (rest : Args) (res : ParseResult)
    → lookup_short cs b ≡ some d
    → d.type ≡ flag_bool
    → parse_short cs (b ∷ chars) rest res ≡ parse_short cs chars rest (set_bool d res)
unfolding parse_short
parse_short_bool cs d b chars rest res found is_bool = ground arith

-- A cluster `-bc…` is read as `-b -c…`, from any state, when `-b` is a Boolean flag.
pub parse_from-cluster :
    (cs : CompiledSpec) (d : FlagDef) (b c : ℕ) (chars : Bytes) (rest : Args) (res : ParseResult)
    → lookup_short cs b ≡ some d
    → d.type ≡ flag_bool
    → b ≢ dash
    → c ≢ dash
    → parse_from cs ((dash ∷ b ∷ c ∷ chars) ∷ rest) res
      ≡ parse_from cs ((dash ∷ b ∷ []) ∷ (dash ∷ c ∷ chars) ∷ rest) res
unfolding parse_short
parse_from-cluster cs d b c chars rest res found is_bool hb hc = cc (
  parse_from_short cs b (c ∷ chars) rest res hb,
  parse_from_short cs b [] ((dash ∷ c ∷ chars) ∷ rest) res hb,
  parse_from_short cs c chars rest (set_bool d res) hc,
  parse_short_bool cs d b (c ∷ chars) rest res found is_bool,
  parse_short_bool cs d b [] ((dash ∷ c ∷ chars) ∷ rest) res found is_bool,
)

parse_short_value :
    (cs : CompiledSpec) (d : FlagDef) (b c : ℕ) (v : Bytes) (rest : Args) (res : ParseResult)
    → lookup_short cs b ≡ some d
    → d.type ≢ flag_bool
    → parse_short cs (b ∷ c ∷ v) rest res ≡ ok (rest, store_short d (c ∷ v) res)
unfolding parse_short
parse_short_value cs d b c v rest res found h = ground arith

parse_short_next :
    (cs : CompiledSpec) (d : FlagDef) (b : ℕ) (v : Bytes) (rest : Args) (res : ParseResult)
    → lookup_short cs b ≡ some d
    → d.type ≡ flag_value
    → parse_short cs (b ∷ []) (v ∷ rest) res ≡ ok (rest, store_short d v res)
unfolding parse_short
parse_short_next cs d b v rest res found h = ground arith

-- From any state, a value that is not empty behind its short flag, `-ovalue`, is read as the flag and
-- its value, `-o value`, when `-o` is known, no dash and of type FlagValue.
pub parse_from-short_value :
    (cs : CompiledSpec) (d : FlagDef) (b c : ℕ) (v : Bytes) (rest : Args) (res : ParseResult)
    → lookup_short cs b ≡ some d
    → d.type ≡ flag_value
    → b ≢ dash
    → parse_from cs ((dash ∷ b ∷ c ∷ v) ∷ rest) res
      ≡ parse_from cs ((dash ∷ b ∷ []) ∷ (c ∷ v) ∷ rest) res
parse_from-short_value cs d b c v rest res found is_value hb = cc (
  parse_from_short cs b (c ∷ v) rest res hb,
  parse_from_short cs b [] ((c ∷ v) ∷ rest) res hb,
  parse_short_value cs d b c v rest res found (λ e. flag_value-ne-flag_bool (sym is_value ∙ e)),
  parse_short_next cs d b (c ∷ v) rest res found is_value,
)

split_eq-append : (name v : Bytes) → Lacks b'=' name → split_eq (name ++ b'=' ∷ v) ≡ (name, some v)
unfolding split_eq
split_eq-append [] v h = refl
split_eq-append (c ∷ name) v h = ground (arith, split_eq-append name v h.1)

split_eq-Lacks : (name : Bytes) → Lacks b'=' name → split_eq name ≡ (name, none)
unfolding split_eq
split_eq-Lacks [] h = refl
split_eq-Lacks (c ∷ name) h = ground (arith, split_eq-Lacks name h.1)

-- From any state, `--name=value` is read as `--name value`, whatever the value holds, when the name is
-- known, has no equals sign and is of type FlagValue.
pub parse_from-long_value :
    (cs : CompiledSpec) (d : FlagDef) (c : ℕ) (name v : Bytes) (rest : Args) (res : ParseResult)
    → lookup_long cs (c ∷ name) ≡ some d
    → d.type ≡ flag_value
    → Lacks b'=' (c ∷ name)
    → parse_from cs ((dash ∷ dash ∷ c ∷ name ++ b'=' ∷ v) ∷ rest) res
      ≡ parse_from cs ((dash ∷ dash ∷ c ∷ name) ∷ v ∷ rest) res
unfolding parse_long
parse_from-long_value cs d c name v rest res found is_value lacks = ground (
  arith,
  parse_from_long cs c (name ++ b'=' ∷ v) rest res,
  parse_from_long cs c name (v ∷ rest) res,
  split_eq-append (c ∷ name) v lacks,
  split_eq-Lacks (c ∷ name) lacks,
)
