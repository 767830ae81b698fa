-- ===== src/Tools/Expr/Tests.antt =====
-- `expr` on small inputs.
use go_posix.Base.{
  ◌≡◌, ◌≢◌, refl, some, none, [], ◌∷◌, beq, codes, drop, if◌then◌else◌, ok, err, ◌>>=◌,
}
use go_posix.Base.FilePath.{has_prefix}
use go_posix.Base.Text.{contains}
use go_posix.Base.Int64.{
  word, int64, add, mul, digits, magnitude_of, in_range, parse_int, decimal, format_int,
}
use go_posix.Tools.Expr.Values.{
  Regexp, is_null, exit_code, with_ints, add_result, mul_ints, mul_result, is_or, is_and,
  is_compare, is_add, is_mul, anchored, match_result, match_str, out_of_fuel,
}
use go_posix.Tools.Expr.Grammar.{Expr, plus, times, atom, binary, value, print, is_reserved}
use go_posix.Tools.Expr.Fuel.{eval-Ends}
use go_posix.Tools.Expr.Refinement.{eval-print}
use go_posix.Tools.Expr.{
  peek, next, done, loop, level, mul_level, add_level, compare_level, and_level, or_level, unary,
  close, primary, parse, finish, eval,
}

-- Patterns that are literal texts behind their `^`.
abbrev literal : Regexp
literal pattern str =
    if has_prefix str (drop 1 pattern) then some (some (drop 1 pattern, [])) else some none

abbrev sum : Expr
sum = binary times (binary plus (atom (codes "1")) (atom (codes "2"))) (atom (codes "-3"))

run_sum : eval literal (print 0 sum) ≡ ok (codes "-9", 0)
unfolding value print eval parse finish primary or_level and_level compare_level add_level mul_level
    level unary close peek next done loop is_or is_and is_compare is_add is_mul add_result
    mul_result with_ints mul_ints exit_code is_null beq word int64 add mul digits magnitude_of
    in_range parse_int decimal format_int
run_sum = refl

run_match : eval literal (codes "abc" ∷ codes ":" ∷ codes "ab" ∷ []) ≡ ok (codes "2", 0)
unfolding eval parse finish primary or_level and_level compare_level add_level mul_level level unary
    close peek next done loop is_or is_and is_compare is_add is_mul match_str match_result anchored
    exit_code is_null beq decimal format_int has_prefix contains
run_match = refl

eval-print_example : eval literal (print 0 sum) ≡ (value literal sum >>= λ v. ok (v, exit_code v))
unfolding is_reserved beq
eval-print_example = eval-print literal sum ((refl, refl), refl)

eval-Ends_example : eval literal (codes "7" ∷ codes "/" ∷ codes "0" ∷ []) ≢ err out_of_fuel
eval-Ends_example = eval-Ends literal (codes "7" ∷ codes "/" ∷ codes "0" ∷ [])
