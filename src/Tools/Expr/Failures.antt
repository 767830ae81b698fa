-- ===== src/Tools/Expr/Failures.antt =====
-- Operands on which `expr` fails.
use go_posix.Base.{
  ◌≡◌, refl, false, [], ◌∷◌, Bytes, beq, codes, leb, length, err, ◌>>=◌, arith, ap, ℕ, ◌∙◌, suc,
  ◌+◌,
}
use go_posix.Base.Int64.{
  pos, negsuc, add, word, int64, parse_int, in_range, magnitude_of, digits, lt_int,
}
use go_posix.Tools.Expr.Values.{
  Regexp, unexpected_end, panics, with_ints, substr_str, substr_ints, slice, start_of, clip,
}
use go_posix.Tools.Expr.Grammar.{atom, substr_of, value, print, is_reserved}
use go_posix.Tools.Expr.Refinement.{eval-print}
use go_posix.Tools.Expr.{
  Tokens, peek, next, level, mul_level, add_level, compare_level, and_level, or_level, unary,
  primary, parse, finish, eval,
}

parse-empty :
    (regexp : Regexp) (fuel : ℕ) (ts : Tokens)
    → (parse regexp (suc fuel) ([] ∷ ts) >>= finish) ≡ err unexpected_end
unfolding parse or_level and_level compare_level add_level mul_level level unary primary peek next
    beq finish
parse-empty regexp fuel ts = refl

-- An empty operand at the front is taken for the end of the expression, whatever follows.
eval-empty_operand : (regexp : Regexp) (ts : Tokens) → eval regexp ([] ∷ ts) ≡ err unexpected_end
unfolding eval
eval-empty_operand regexp ts =
    let rounds : length ([] ∷ ts) + 1 ≡ suc (length ts + 1) = omega arith in
    ap (λ fuel. parse regexp fuel ([] ∷ ts) >>= finish) rounds
    ∙ parse-empty regexp (length ts + 1) ts

-- A text that is not empty has no slice that ends at -1.
substr-negative :
    (str : Bytes) → is_reserved str ≡ false → substr_ints str (pos 1) (negsuc 0) ≡ err panics
unfolding substr_ints slice start_of clip add word int64 lt_int is_reserved beq
substr-negative [] h = cc
substr-negative (c ∷ s) h =
    let longer : leb (suc (length s)) 0 ≡ false = ground arith in rw longer refl

-- With a length of -1 from the first position on, `substr` slices a text that is not empty out of
-- range, and panics.
eval-negative_length :
    (regexp : Regexp) (str : Bytes)
    → is_reserved str ≡ false
    → eval regexp (codes "substr" ∷ str ∷ codes "1" ∷ codes "-1" ∷ []) ≡ err panics
unfolding value print substr_str with_ints parse_int in_range magnitude_of digits is_reserved beq
eval-negative_length regexp str plain =
    eval-print regexp (substr_of (atom str) (atom (codes "1")) (atom (codes "-1")))
      (plain, refl, refl)
    ∙ rw (substr-negative str plain) refl
