-- ===== src/Flags/Tests.antt =====
-- Command lines of `cut`, as the flag parser reads them.
use go_posix.Base.{
  ◌≡◌, refl, true, false, Option, none, some, ◌∷◌, [], List, Bytes, beq, codes, ok, err, Result,
  arith, ltb, if◌then◌else◌,
}
use go_posix.Flags.{
  FlagDef, FlagSpec, flag_bool, flag_value, parse_flags, Error, ParseResult, new_parse_result,
  compile, lookup_short, lookup_long, set_bool, store_long, store_short, mark, store, parse_from,
  loop, classify, add_positional,
}
use go_posix.Flags.Lookup.{lookup-compile, last_short, first_long}
use go_posix.Flags.Total.{Ends, parse_flags-Ends}
use go_posix.Flags.Positional.{IsSubseq, parse_flags-IsSubseq, parse_from-operands}
use go_posix.Flags.Spelling.{parse_from-cluster, parse_from-short_value, parse_from-long_value}

abbrev fields_def : FlagDef
fields_def = record { short = codes "f"; long = codes "fields"; type = flag_value }

abbrev suppress_def : FlagDef
suppress_def = record { short = codes "s"; long = codes "only-delimited"; type = flag_bool }

abbrev json_def : FlagDef
json_def = record { short = []; long = codes "json"; type = flag_bool }

abbrev cut_spec : FlagSpec
cut_spec = record {
  defs = fields_def ∷ suppress_def ∷ json_def ∷ [];
  stop_at_first_non_flag = false;
  pre_process = none;
}

abbrev echo_spec : FlagSpec
echo_spec = record { defs = suppress_def ∷ []; stop_at_first_non_flag = true; pre_process = none }

abbrev values_of : Result Error ParseResult → Option (List Bytes × Bytes)
values_of (ok r) = some (r.positional, r.values (codes "fields"))
values_of (err e) = none

abbrev mixed_args : List Bytes
mixed_args = codes "x" ∷ codes "-sf" ∷ codes "1-" ∷ codes "--json" ∷ codes "--" ∷ codes "-s" ∷ []

mixed : values_of (parse_flags mixed_args cut_spec) ≡ some (codes "x" ∷ codes "-s" ∷ [], codes "1-")
unfolding parse_flags compile lookup_short lookup_long new_parse_result set_bool store_long
    store_short mark store parse_from loop beq classify
mixed = refl

abbrev result_of : Result Error ParseResult → ParseResult
result_of (ok r) = r
result_of (err e) = record {
  bools = λ k. false;
  values = λ k. [];
  values_list = λ k. [];
  count = λ k. 0;
  positional = [];
  stdin = false;
}

parse_flags-Ends_example : Ends (parse_flags mixed_args cut_spec)
parse_flags-Ends_example = parse_flags-Ends mixed_args cut_spec refl

-- A PreProcess that puts a flag in front.
abbrev rewriting_spec : FlagSpec
rewriting_spec = record cut_spec { pre_process = some (λ args. ok (codes "-s" ∷ args)) }

parse_flags-IsSubseq_example :
    IsSubseq
      (result_of (parse_flags mixed_args rewriting_spec)).positional
      (codes "-s" ∷ mixed_args)
unfolding parse_flags compile lookup_short lookup_long new_parse_result set_bool store_long
    store_short mark store parse_from loop beq classify
parse_flags-IsSubseq_example =
    parse_flags-IsSubseq mixed_args (codes "-s" ∷ mixed_args) rewriting_spec
      (result_of (parse_flags mixed_args rewriting_spec)) refl refl

parse_from-operands_example :
    parse_from
      (compile cut_spec)
      (codes "a" ∷ codes "b" ∷ codes "--" ∷ codes "-s" ∷ [])
      new_parse_result
    ≡ ok (add_positional (codes "a" ∷ codes "b" ∷ codes "-s" ∷ []) new_parse_result)
unfolding classify compile
parse_from-operands_example =
    parse_from-operands (compile cut_spec) (codes "a" ∷ codes "b" ∷ []) (codes "-s" ∷ [])
      new_parse_result refl (refl, (refl, tt))

parse_from-cluster_example :
    parse_from (compile cut_spec) (codes "-sf1" ∷ []) new_parse_result
    ≡ parse_from (compile cut_spec) (codes "-s" ∷ codes "-f1" ∷ []) new_parse_result
unfolding compile lookup_short beq
parse_from-cluster_example =
    parse_from-cluster (compile cut_spec) suppress_def b's' b'f' (codes "1") [] new_parse_result
      refl refl (omega arith) (omega arith)

parse_from-short_value_example :
    parse_from (compile cut_spec) (codes "-f1-2" ∷ codes "x" ∷ []) new_parse_result
    ≡ parse_from (compile cut_spec) (codes "-f" ∷ codes "1-2" ∷ codes "x" ∷ []) new_parse_result
unfolding compile lookup_short beq
parse_from-short_value_example =
    parse_from-short_value (compile cut_spec) fields_def b'f' b'1' (codes "-2") (codes "x" ∷ [])
      new_parse_result refl refl (omega arith)

parse_from-long_value_example :
    parse_from (compile cut_spec) (codes "--fields=1=2" ∷ []) new_parse_result
    ≡ parse_from (compile cut_spec) (codes "--fields" ∷ codes "1=2" ∷ []) new_parse_result
unfolding compile lookup_long beq
parse_from-long_value_example =
    parse_from-long_value (compile cut_spec) fields_def b'f' (codes "ields") (codes "1=2") []
      new_parse_result refl refl (omega arith)

lookup-compile_example :
    (lookup_short (compile cut_spec) b's'
      ≡ (if ltb b's' 128 then last_short b's' cut_spec.defs else none))
    × (lookup_long (compile cut_spec) (codes "json") ≡ first_long (codes "json") cut_spec.defs)
lookup-compile_example = lookup-compile cut_spec b's' (codes "json") (omega arith)
