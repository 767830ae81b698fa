-- ===== src/Tools/Expr/Operators.antt =====
-- The operators of the levels of `expr`, and the tokens behind which an operand goes on.
use go_posix.Base.{
  ℕ, zero, suc, ◌≤◌, ◌≡◌, refl, Bool, true, false, ◌&&◌, ◌||◌, Bytes, beq, codes, arith, leb,
}
use go_posix.Tools.Expr.Values.{is_or, is_and, is_compare, is_add, is_mul}
use go_posix.Tools.Expr.Grammar.{
  Operator, either, both, equal, unequal, less, at_most, greater, at_least, plus, minus, times,
  divided, modulo, rank, token,
}
use go_posix.Tools.Expr.{Tokens, peek}

-- The operators of a level.
unfoldable pub is_op : ℕ → Bytes → Bool
unfolding is_or is_and is_compare is_add is_mul
is_op zero = is_or
is_op (suc zero) = is_and
is_op (suc (suc zero)) = is_compare
is_op (suc (suc (suc zero))) = is_add
is_op _ = is_mul

-- A token behind which an operand goes on, in a place of the level `n`.
unfoldable pub goes_on : ℕ → Bytes → Bool
unfolding is_op
goes_on n t =
    (leb n 0 && is_op 0 t)
    || (leb n 1 && is_op 1 t)
    || (leb n 2 && is_op 2 t)
    || (leb n 3 && is_op 3 t)
    || (leb n 4 && is_op 4 t)
    || beq t (codes ":")

abbrev pub Stops : ℕ → Tokens → Type 0
Stops n ts = goes_on n (peek ts) ≡ false

pub is_op-token : (o : Operator) → is_op (rank o) (token o) ≡ true
unfolding is_op is_or is_and is_compare is_add is_mul beq
is_op-token either = refl
is_op-token both = refl
is_op-token equal = refl
is_op-token unequal = refl
is_op-token less = refl
is_op-token at_most = refl
is_op-token greater = refl
is_op-token at_least = refl
is_op-token plus = refl
is_op-token minus = refl
is_op-token times = refl
is_op-token divided = refl
is_op-token modulo = refl

pub goes_on-token : (o : Operator) → goes_on (suc (rank o)) (token o) ≡ false
unfolding goes_on is_op is_or is_and is_compare is_add is_mul beq
goes_on-token either = refl
goes_on-token both = refl
goes_on-token equal = refl
goes_on-token unequal = refl
goes_on-token less = refl
goes_on-token at_most = refl
goes_on-token greater = refl
goes_on-token at_least = refl
goes_on-token plus = refl
goes_on-token minus = refl
goes_on-token times = refl
goes_on-token divided = refl
goes_on-token modulo = refl

pub goes_on-weaken : (n : ℕ) (t : Bytes) → goes_on n t ≡ false → goes_on (suc n) t ≡ false
unfolding goes_on
goes_on-weaken n t h = ground arith

pub goes_on-is_op : (n : ℕ) (t : Bytes) → n ≤ 4 → goes_on n t ≡ false → is_op n t ≡ false
unfolding goes_on
goes_on-is_op n t le h = ground arith
