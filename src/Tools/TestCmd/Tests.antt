-- ===== src/Tools/TestCmd/Tests.antt =====
-- `test` on a few operands.
use go_posix.Base.{◌≡◌, ◌≢◌, refl, true, none, [], ◌∷◌, beq, codes, ok, err}
use go_posix.Base.Int64.{parse_int, in_range, magnitude_of, digits, eq_int, lt_int}
use go_posix.Tools.Expr.{peek, next, done}
use go_posix.Tools.TestCmd.Values.{
  Files, any_of, is_unary_op, is_binary_op, eval_unary, compare_ints, eval_ints, eval_binary,
  missing_paren, out_of_fuel,
}
use go_posix.Tools.TestCmd.Fuel.{evaluate-Ends}
use go_posix.Tools.TestCmd.Operands.{evaluate-binary}
use go_posix.Tools.TestCmd.{
  has_next, next_is_binary, loop, parse_not, parse_and, parse_or, binary, bare, operand, close,
  primary, finish, evaluate,
}

abbrev no_files : Files
no_files = record { lstat = λ f. none; stat = λ f. none }

-- ! a = b -o 2 -lt 10
evaluate_or :
    evaluate no_files
      (codes "!" ∷ codes "x" ∷ codes "-o" ∷ codes "2" ∷ codes "-lt" ∷ codes "10" ∷ [])
    ≡ ok true
unfolding evaluate parse_or parse_and parse_not loop primary operand bare binary has_next
    next_is_binary finish close is_unary_op is_binary_op any_of eval_unary eval_binary eval_ints
    compare_ints parse_int in_range magnitude_of digits eq_int lt_int peek next done beq
evaluate_or = refl

-- One parenthesis on its own is taken for the beginning of an expression.
evaluate_paren : evaluate no_files (codes "(" ∷ []) ≡ err missing_paren
unfolding evaluate parse_or parse_and parse_not loop primary operand bare binary has_next
    next_is_binary finish close is_unary_op is_binary_op any_of peek next done beq
evaluate_paren = refl

evaluate-binary_example :
    evaluate no_files (codes "(" ∷ codes "=" ∷ codes "(" ∷ [])
    ≡ eval_binary (codes "(") (codes "=") (codes "(")
unfolding is_binary_op any_of beq
evaluate-binary_example = evaluate-binary no_files (codes "(") (codes "=") (codes "(") refl

evaluate-Ends_example : evaluate no_files (codes "!" ∷ codes "(" ∷ []) ≢ err out_of_fuel
evaluate-Ends_example = evaluate-Ends no_files (codes "!" ∷ codes "(" ∷ [])
