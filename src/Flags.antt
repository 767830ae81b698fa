-- ===== src/Flags.antt =====
-- pkg/common/flags.go and pkg/common/compiled.go: the flag parser that every utility calls.
-- A string is its bytes. The maps of `ParseResult` are functions from names. The index `i` into
-- `args` is the suffix of `args` that starts there, so `i + 1` is the tail of that suffix.
mod Lookup
mod Positional
mod Spelling
mod Steps
mod Total
mod Tests
use go_posix.Base.{
  ℕ, zero, suc, ◌+◌, ◌%◌, ◌≡◌, Bool, true, false, ◌||◌, not, Option, none, some, List, [], ◌∷◌,
  ◌++◌, Bytes, beq, ltb, ◌==◌, if◌then◌else◌, get_elem?, length, Result, ok, err, ◌>>=◌,
}

pub data FlagType : Type 0 where
  flag_bool flag_value flag_optional_value : FlagType

pub record FlagDef : Type 0 where
  pub short : Bytes
  pub long : Bytes
  pub type : FlagType

-- The formats of `errf`, with their arguments. `out_of_fuel` belongs to the model only.
pub data Msg : Type 0 where
  unknown_long : Bytes → Msg
  long_requires_value : Bytes → Msg
  unknown_short : ℕ → Msg
  short_requires_value : Bytes → Msg

pub record FlagError : Type 0 where
  pub exit_code : ℕ
  pub msg : Msg

-- `other` is an error that a caller's `PreProcess` returns.
pub data Error : Type 0 where
  flag_error : FlagError → Error
  other : Bytes → Error
  out_of_fuel : Error

abbrev pub Args : Type 0
Args = List Bytes

pub record FlagSpec : Type 0 where
  pub defs : List FlagDef
  pub stop_at_first_non_flag : Bool
  pub pre_process : Option (Args → Result Error Args)

pub record ParseResult : Type 0 where
  pub bools : Bytes → Bool
  pub values : Bytes → Bytes
  pub values_list : Bytes → List Bytes
  pub count : Bytes → ℕ
  pub positional : Args
  pub stdin : Bool

pub new_parse_result : ParseResult
new_parse_result = record {
  bools = λ k. false;
  values = λ k. [];
  values_list = λ k. [];
  count = λ k. 0;
  positional = [];
  stdin = false;
}

-- `res.Has`, `res.Get`, `res.GetAll`
pub has : ParseResult → Bytes → Bool
has r name = r.bools name

pub get : ParseResult → Bytes → Bytes
get r name = r.values name

get_all : ParseResult → Bytes → List Bytes
get_all r name = r.values_list name

errf : {A : Type 0} → ℕ → Msg → Result Error A
errf code m = err (flag_error (record { exit_code = code; msg = m }))

-- `m[k] = v`
abbrev update {ℓ} : {V : Type ℓ} → (Bytes → V) → Bytes → V → Bytes → V
update m k v x = if beq x k then v else m x

pub record CompiledSpec : Type 0 where
  pub short_idx : ℕ → Option ℕ
  pub long_idx : List (Bytes × ℕ)
  pub defs : List FlagDef
  pub stop_at_first : Bool

-- `int8(i)`, where a negative index, which `lookupShort` takes for an absent one, is `none`.
pub int8 : ℕ → Option ℕ
int8 i = if ltb (i % 256) 128 then some (i % 256) else none

pub uint8 : ℕ → ℕ
uint8 i = i % 256

-- One round of the loop of `compile` on `shortIdx`.
pub set_short : (ℕ → Option ℕ) → ℕ → FlagDef → ℕ → Option ℕ
unfolding int8
set_short idx i d b = elim d.short [
  | [] ↦ idx b
  | c ∷ s ↦ if ltb c 128 then (if b == c then int8 i else idx b) else idx b
]

pub compile_short : ℕ → List FlagDef → (ℕ → Option ℕ) → ℕ → Option ℕ
compile_short i [] idx = idx
compile_short i (d ∷ ds) idx = compile_short (i + 1) ds (set_short idx i d)

pub compile_long : ℕ → List FlagDef → List (Bytes × ℕ) → List (Bytes × ℕ)
compile_long i [] entries = entries
compile_long i (d ∷ ds) entries =
    compile_long (i + 1) ds (if beq d.long [] then entries else entries ++ (d.long, uint8 i) ∷ [])

pub compile : FlagSpec → CompiledSpec
unfolding compile_short compile_long set_short uint8
compile s = record {
  short_idx = compile_short 0 s.defs (λ b. none);
  long_idx = compile_long 0 s.defs [];
  defs = s.defs;
  stop_at_first = s.stop_at_first_non_flag;
}

pub def_at : List FlagDef → Option ℕ → Option FlagDef
def_at ds none = none
def_at ds (some i) = get_elem? ds i

pub lookup_short : CompiledSpec → ℕ → Option FlagDef
unfolding def_at
lookup_short cs b = if ltb b 128 then def_at cs.defs (cs.short_idx b) else none

pub find_long : List (Bytes × ℕ) → Bytes → Option ℕ
find_long [] name = none
find_long ((n, i) ∷ es) name = if beq n name then some i else find_long es name

pub lookup_long : CompiledSpec → Bytes → Option FlagDef
unfolding find_long def_at
lookup_long cs name = def_at cs.defs (find_long cs.long_idx name)

-- `res.Bools[k] = true; res.Count[k]++`
pub mark : Bytes → ParseResult → ParseResult
mark k res = record res {
  bools = update res.bools k true;
  count = update res.count k (res.count k + 1);
}

-- `res.Values[k] = v; res.ValuesList[k] = append(res.ValuesList[k], v); res.Bools[k] = true`
pub store : Bytes → Bytes → ParseResult → ParseResult
store k v res = record res {
  values = update res.values k v;
  values_list = update res.values_list k (res.values_list k ++ v ∷ []);
  bools = update res.bools k true;
}

-- The writes of a Boolean flag: the short name always, the long one where there is one.
pub set_bool : FlagDef → ParseResult → ParseResult
set_bool d res = let res' = mark d.short res in if beq d.long [] then res' else mark d.long res'

-- The writes of `parseLong` for a value: the short name where there is one, the long one always.
pub store_long : FlagDef → Bytes → ParseResult → ParseResult
store_long d v res = store d.long v (if beq d.short [] then res else store d.short v res)

-- The writes of `parseShort` for a value: each name where there is one.
pub store_short : FlagDef → Bytes → ParseResult → ParseResult
store_short d v res =
    let res' = if beq d.short [] then res else store d.short v res in
    if beq d.long [] then res' else store d.long v res'

-- The scan for an inline `=`: the name, and the value where there is one.
pub split_eq : Bytes → Bytes × Option Bytes
split_eq [] = ([], none)
split_eq (c ∷ s) = let rest = split_eq s in if c == b'=' then ([], some s) else (c ∷ rest.0, rest.1)

-- What `parseLong` and `parseShort` return: the arguments from the new index on, and the result.
abbrev pub Parsed : Type 0
Parsed = Result Error (Args × ParseResult)

-- A value flag without an inline value takes the next argument.
pub take_long : FlagDef → Bytes → Args → ParseResult → Parsed
take_long d name [] res = errf 2 (long_requires_value name)
take_long d name (v ∷ rest) res = ok (rest, store_long d v res)

-- After the lookup: the definition, the name, the inline value and the arguments that follow.
pub long_flag : FlagDef → Bytes → Option Bytes → Args → ParseResult → FlagType → Parsed
long_flag d name value rest res flag_bool = ok (rest, set_bool d res)
long_flag d name (some v) rest res _ = ok (rest, store_long d v res)
long_flag d name none rest res flag_optional_value = ok (rest, store_long d [] res)
long_flag d name none rest res flag_value = take_long d name rest res

pub found_long : Option FlagDef → Bytes → Option Bytes → Args → ParseResult → Parsed
unfolding long_flag take_long errf
found_long none name value rest res = errf 2 (unknown_long name)
found_long (some d) name value rest res = long_flag d name value rest res d.type

-- `parseLong`, given what stands behind the two dashes and the arguments behind the flag.
pub parse_long : CompiledSpec → Bytes → Args → ParseResult → Parsed
unfolding split_eq found_long
parse_long cs body rest res =
    let (name, value) = split_eq body in found_long (lookup_long cs name) name value rest res

take_short : FlagDef → Args → ParseResult → Parsed
take_short d [] res = errf 2 (short_requires_value d.short)
take_short d (v ∷ rest) res = ok (rest, store_short d v res)

-- A flag that may have a value, before the rest of its cluster.
pub short_value : FlagDef → FlagType → Bytes → Args → ParseResult → Parsed
unfolding take_short errf
short_value d t (c ∷ remainder) rest res = ok (rest, store_short d (c ∷ remainder) res)
short_value d flag_optional_value [] rest res = ok (rest, store_short d [] res)
short_value d t [] rest res = take_short d rest res

-- The body of the loop of `parseShort` after the lookup; `next` is the loop on the rest of the
-- cluster.
pub short_known : FlagDef → FlagType → Bytes → Args → ParseResult → (ParseResult → Parsed) → Parsed
unfolding short_value
short_known d flag_bool chars rest res next = next (set_bool d res)
short_known d t chars rest res next = short_value d t chars rest res

pub short_flag : Option FlagDef → ℕ → Bytes → Args → ParseResult → (ParseResult → Parsed) → Parsed
unfolding errf short_known
short_flag none b chars rest res next = errf 2 (unknown_short b)
short_flag (some d) b chars rest res next = short_known d d.type chars rest res next

-- `parseShort`, given what stands behind the dash and the arguments behind the flag.
pub parse_short : CompiledSpec → Bytes → Args → ParseResult → Parsed
unfolding short_flag
parse_short cs [] rest res = ok (rest, res)
parse_short cs (b ∷ chars) rest res =
    short_flag (lookup_short cs b) b chars rest res (λ r. parse_short cs chars rest r)

pub add_positional : Args → ParseResult → ParseResult
add_positional more res = record res { positional = res.positional ++ more }

-- What one round of the loop of `ParseFlags` does with an argument.
pub data ArgKind : Type 0 where
  end_of_flags stdin_marker operand : ArgKind
  long_arg : Bytes → ArgKind
  short_arg : Bytes → ArgKind

pub classify : Bytes → ArgKind
classify [] = operand
classify (c ∷ []) = if c == b'-' then stdin_marker else operand
classify (c ∷ d ∷ s) =
    if c == b'-'
    then (if d == b'-' then (if beq s [] then end_of_flags else long_arg s) else short_arg (d ∷ s))
    else operand

-- One round of the loop of `ParseFlags`, on the argument `arg` and those behind it; `next` is the
-- loop from the new index on.
pub round :
    CompiledSpec
    → Bytes
    → Args
    → ParseResult
    → (Args → ParseResult → Result Error ParseResult)
    → Result Error ParseResult
unfolding parse_long parse_short add_positional
round cs arg rest res next = elim (classify arg) [
  | end_of_flags ↦ ok (add_positional rest res)
  | stdin_marker ↦ next rest (add_positional (arg ∷ []) (record res { stdin = true }))
  | operand ↦ elim cs.stop_at_first [
    | true ↦ ok (add_positional (arg ∷ rest) res)
    | false ↦ next rest (add_positional (arg ∷ []) res)
  ]
  | long_arg body ↦ parse_long cs body rest res >>= λ (rest', res'). next rest' res'
  | short_arg body ↦ parse_short cs body rest res >>= λ (rest', res'). next rest' res'
]

-- The loop of `ParseFlags`. Each round takes at least one argument.
pub loop : ℕ → CompiledSpec → Args → ParseResult → Result Error ParseResult
unfolding round
loop fuel cs [] res = ok res
loop zero cs (arg ∷ rest) res = err out_of_fuel
loop (suc fuel) cs (arg ∷ rest) res = round cs arg rest res (loop fuel cs)

-- The loop with a round for each argument, from any state.
pub parse_from : CompiledSpec → Args → ParseResult → Result Error ParseResult
parse_from cs args res = loop (length args) cs args res

pub pre_process_args : Option (Args → Result Error Args) → Args → Result Error Args
pre_process_args none args = ok args
pre_process_args (some f) args = f args

pub parse_flags : Args → FlagSpec → Result Error ParseResult
unfolding pre_process_args
parse_flags args spec = pre_process_args spec.pre_process args >>= λ args'.
    parse_from (compile spec) args' new_parse_result
