-- ===== src/Flags/Total.antt =====
-- The loop of `ParseFlags` and its fuel.
use go_posix.Base.{
  ℕ, zero, suc, ◌≤◌, ◌≡◌, refl, Bool, true, false, Option, none, some, [], ◌∷◌, Bytes, length,
  arith, Result, ok, err, ◌>>=◌, ◌⊎◌, inl, inr, ap, ◌∙◌,
}
use go_posix.Flags.{
  FlagDef, FlagType, flag_bool, flag_value, flag_optional_value, Args, ParseResult, Error,
  flag_error, FlagSpec, CompiledSpec, Parsed, short_value, short_known, short_flag, add_positional,
  parse_short, parse_long, found_long, long_flag, lookup_short, lookup_long, split_eq, set_bool,
  store_long, store_short, mark, store, round, loop, parse_from, parse_flags, classify, ArgKind,
  end_of_flags, stdin_marker, operand, long_arg, short_arg, compile, new_parse_result,
}

-- What `parseLong` and `parseShort` may return behind `rest`, from the state `res`: they take at
-- most one more argument and write no operand, or they fail with exit code 2.
abbrev pub Takes : Args → ParseResult → Parsed → Type 0
Takes rest res (ok (rest', res')) =
    (res'.positional ≡ res.positional) × ((rest' ≡ rest) ⊎ ((v : Bytes) × (rest ≡ v ∷ rest')))
Takes rest res (err (flag_error e)) = e.exit_code ≡ 2
Takes rest res (err _) = ⊥

long_flag-Takes :
    (d : FlagDef) (name : Bytes) (value : Option Bytes) (rest : Args) (res : ParseResult)
    (t : FlagType)
    → Takes rest res (long_flag d name value rest res t)
unfolding found_long set_bool store_long mark store
long_flag-Takes d name value rest res flag_bool = (ground arith, inl refl)
long_flag-Takes d name (some v) rest res _ = (ground arith, inl refl)
long_flag-Takes d name none rest res flag_optional_value = (ground arith, inl refl)
long_flag-Takes d name none [] res flag_value = refl
long_flag-Takes d name none (v ∷ rest) res flag_value = (ground arith, inr (v, refl))

found_long-Takes :
    (o : Option FlagDef) (name : Bytes) (value : Option Bytes) (rest : Args) (res : ParseResult)
    → Takes rest res (found_long o name value rest res)
unfolding found_long
found_long-Takes none name value rest res = refl
found_long-Takes (some d) name value rest res = long_flag-Takes d name value rest res d.type

pub parse_long-Takes :
    (cs : CompiledSpec) (body : Bytes) (rest : Args) (res : ParseResult)
    → Takes rest res (parse_long cs body rest res)
unfolding parse_long
parse_long-Takes cs body rest res =
    let (name, value) = split_eq body in found_long-Takes (lookup_long cs name) name value rest res

Takes-state :
    (rest : Args) (r r' : ParseResult) (p : Parsed)
    → r.positional ≡ r'.positional
    → Takes rest r p
    → Takes rest r' p
Takes-state rest r r' (ok (rest', res')) e (same, t) = (same ∙ e, t)
Takes-state rest r r' (err (flag_error x)) e t = t
Takes-state rest r r' (err _) e t = t

short_value-Takes :
    (d : FlagDef) (t : FlagType) (chars : Bytes) (rest : Args) (res : ParseResult)
    → Takes rest res (short_value d t chars rest res)
unfolding short_value store_short store
short_value-Takes d t (c ∷ chars) rest res = (ground arith, inl refl)
short_value-Takes d flag_optional_value [] rest res = (ground arith, inl refl)
short_value-Takes d t [] [] res = refl
short_value-Takes d t [] (v ∷ rest) res = (ground arith, inr (v, refl))

set_bool-positional :
    (d : FlagDef) (res : ParseResult) → (set_bool d res).positional ≡ res.positional
unfolding set_bool mark
set_bool-positional d res = ground arith

short_known-Takes :
    (d : FlagDef) (t : FlagType) (chars : Bytes) (rest : Args) (res : ParseResult)
    (next : ParseResult → Parsed)
    → Takes rest (set_bool d res) (next (set_bool d res))
    → Takes rest res (short_known d t chars rest res next)
unfolding short_known
short_known-Takes d flag_bool chars rest res next h =
    Takes-state rest (set_bool d res) res _ (set_bool-positional d res) h
short_known-Takes d t chars rest res next h = short_value-Takes d t chars rest res

pub parse_short-Takes :
    (cs : CompiledSpec) (chars : Bytes) (rest : Args) (res : ParseResult)
    → Takes rest res (parse_short cs chars rest res)
unfolding parse_short
parse_short-Takes cs [] rest res = (refl, inl refl)
parse_short-Takes cs (b ∷ chars) rest res = go (lookup_short cs b) (parse_short-Takes cs chars rest)
  where
    go :
        (o : Option FlagDef)
        → ((r : ParseResult) → Takes rest r (parse_short cs chars rest r))
        → Takes rest res (short_flag o b chars rest res (λ r. parse_short cs chars rest r))
    go none ih = refl
    go (some d) ih = short_known-Takes d d.type chars rest res _ (ih (set_bool d res))

-- The result is a state, or an error with exit code 2.
abbrev pub Ends : Result Error ParseResult → Type 0
Ends (ok r) = Unit
Ends (err (flag_error e)) = e.exit_code ≡ 2
Ends (err _) = ⊥

-- The rest of the loop is the same for both kinds of flags.
abbrev pub continue :
    Parsed → (Args → ParseResult → Result Error ParseResult) → Result Error ParseResult
continue p next = p >>= λ (rest', res'). next rest' res'

continue-Ends :
    (rest : Args) (res : ParseResult) (p : Parsed)
    (next : Args → ParseResult → Result Error ParseResult)
    → Takes rest res p
    → ((rest' : Args) (r : ParseResult) → length rest' ≤ length rest → Ends (next rest' r))
    → Ends (continue p next)
continue-Ends rest res (ok (rest', res')) next (_, inl e) h =
    h rest' res' (omega (arith, ap length e))
continue-Ends rest res (ok (rest', res')) next (_, inr (v, e)) h =
    h rest' res' (omega (arith, ap length e))
continue-Ends rest res (err (flag_error e)) next t h = t
continue-Ends rest res (err _) next t h = t

round-Ends :
    (cs : CompiledSpec) (arg : Bytes) (rest : Args) (res : ParseResult)
    (next : Args → ParseResult → Result Error ParseResult)
    → ((rest' : Args) (r : ParseResult) → length rest' ≤ length rest → Ends (next rest' r))
    → Ends (round cs arg rest res next)
unfolding round
round-Ends cs arg rest res next h = go (classify arg) cs.stop_at_first
  where
    go :
        (k : ArgKind) (stop : Bool)
        → Ends (elim k [
          | end_of_flags ↦ ok (add_positional rest res)
          | stdin_marker ↦ next rest (add_positional (arg ∷ []) (record res { stdin = true }))
          | operand ↦ elim stop [
            | true ↦ ok (add_positional (arg ∷ rest) res)
            | false ↦ next rest (add_positional (arg ∷ []) res)
          ]
          | long_arg body ↦ continue (parse_long cs body rest res) next
          | short_arg body ↦ continue (parse_short cs body rest res) next
        ])
    go end_of_flags stop = tt
    go stdin_marker stop = h rest _ (omega arith)
    go operand true = tt
    go operand false = h rest _ (omega arith)
    go (long_arg body) stop = continue-Ends rest res _ next (parse_long-Takes cs body rest res) h
    go (short_arg body) stop = continue-Ends rest res _ next (parse_short-Takes cs body rest res) h

loop-Ends :
    (fuel : ℕ) (cs : CompiledSpec) (args : Args) (res : ParseResult)
    → length args ≤ fuel
    → Ends (loop fuel cs args res)
unfolding loop
loop-Ends fuel cs [] res h = tt
loop-Ends zero cs (arg ∷ rest) res h = omega arith
loop-Ends (suc fuel) cs (arg ∷ rest) res h =
    round-Ends cs arg rest res (loop fuel cs) λ rest' r le. loop-Ends fuel cs rest' r (omega arith)

-- Without a `PreProcess`, `ParseFlags` returns a result or an error with exit code 2: it always ends.
pub parse_flags-Ends :
    (args : Args) (spec : FlagSpec) → spec.pre_process ≡ none → Ends (parse_flags args spec)
unfolding parse_flags parse_from compile
parse_flags-Ends args spec h =
    rw h (loop-Ends (length args) (compile spec) args new_parse_result (omega arith))
