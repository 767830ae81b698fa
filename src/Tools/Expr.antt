-- ===== src/Tools/Expr.antt =====
-- pkg/expr/expr.go with pkg/common/cursor.go: the expressions of `expr`, evaluated as they are parsed.
-- The cursor is the tokens that are left.
pub mod Values
pub mod Grammar
mod Operators
mod Parsing
mod Operands
mod Sizes
mod Places
mod Refinement
mod Failures
mod Errors
mod Fuel
mod Tests
use go_posix.Base.{
  ℕ, zero, suc, ◌+◌, Bool, true, false, ◌||◌, List, [], ◌∷◌, Bytes, beq, codes, if◌then◌else◌,
  length, Result, ok, err, ◌>>=◌,
}
use go_posix.Base.Int64.{pos, format_int}
use go_posix.Tools.Expr.Values.{
  Error, missing_operand, unexpected, unexpected_end, expected_close, syntax_error, out_of_fuel,
  Value, Regexp, exit_code, or_result, and_result, compare_result, add_result, mul_result, is_or,
  is_and, is_compare, is_add, is_mul, match_str, substr_str, index_str,
}

abbrev pub Tokens : Type 0
Tokens = List Bytes

abbrev pub Parser : Type 0
Parser = Tokens → Result Error (Bytes × Tokens)

-- `Peek`, and `Next` as the tokens behind it
unfoldable pub peek : Tokens → Bytes
peek [] = []
peek (t ∷ ts) = t

unfoldable pub next : Tokens → Tokens
next [] = []
next (t ∷ ts) = ts

-- `Done`
unfoldable pub done : Tokens → Bool
done [] = true
done (t ∷ ts) = false

-- The loop that the five functions share: while the next token is an operator of the level, take it
-- and an operand. `sub` is the next function.
pub loop : (Bytes → Bool) → (Bytes → Bytes → Bytes → Value) → Parser → ℕ → Bytes → Parser
loop is_op combine sub zero left ts = if is_op (peek ts) then err out_of_fuel else ok (left, ts)
loop is_op combine sub (suc fuel) left ts =
    let more = do
      (right, rest) ← sub (next ts)
      v ← combine (peek ts) left right
      loop is_op combine sub fuel v rest
    in if is_op (peek ts) then more else ok (left, ts)

pub level : (Bytes → Bool) → (Bytes → Bytes → Bytes → Value) → ℕ → Parser → Parser
unfolding loop
level is_op combine fuel sub ts = do (left, rest) ← sub ts; loop is_op combine sub fuel left rest

-- `parseOr` down to `parseMul`, above the parser of an operand of `*`.
pub mul_level : ℕ → Parser → Parser
unfolding level
mul_level = level is_mul mul_result

pub add_level : ℕ → Parser → Parser
unfolding level mul_level
add_level fuel unary = level is_add add_result fuel (mul_level fuel unary)

pub compare_level : ℕ → Parser → Parser
unfolding level add_level
compare_level fuel unary = level is_compare compare_result fuel (add_level fuel unary)

pub and_level : ℕ → Parser → Parser
unfolding level compare_level
and_level fuel unary = level is_and and_result fuel (compare_level fuel unary)

pub or_level : ℕ → Parser → Parser
unfolding level and_level
or_level fuel unary = level is_or or_result fuel (and_level fuel unary)

-- `parseUnary`, above `parsePrimary`.
pub unary : Regexp → Parser → Parser
unary regexp primary ts =
    if beq (peek ts) (codes "match")
    then (do
      (str, rest) ← primary (next ts)
      (pat, rest') ← primary rest
      v ← match_str regexp str pat
      ok (v, rest'))
    else if beq (peek ts) (codes "substr")
    then (do
      (str, rest) ← primary (next ts)
      (position, rest') ← primary rest
      (len, rest'') ← primary rest'
      v ← substr_str str position len
      ok (v, rest''))
    else if beq (peek ts) (codes "index")
    then (do
      (str, rest) ← primary (next ts)
      (chars, rest') ← primary rest
      ok (index_str str chars, rest'))
    else if beq (peek ts) (codes "length")
    then (if done (next ts)
          || beq (peek (next ts)) (codes ")")
          || beq (peek (next ts)) (codes "|")
          || beq (peek (next ts)) (codes "&")
        then err syntax_error
        else (do (str, rest) ← primary (next ts); ok (format_int (pos (length str)), rest)))
    else primary ts

-- The `)` behind an expression in parentheses.
pub close : Bytes × Tokens → Result Error (Bytes × Tokens)
close (v, rest) = if beq (peek rest) (codes ")") then ok (v, next rest) else err expected_close

-- `parsePrimary`. Each call of it within another takes a unit of `depth`; `fuel` is for the loops.
pub primary : Regexp → ℕ → ℕ → Parser
unfolding or_level unary close
primary regexp fuel zero ts = err out_of_fuel
primary regexp fuel (suc depth) ts =
    let inner = (or_level fuel (unary regexp (primary regexp fuel depth)) (next ts) >>= close) in
    let matched = do
      (pat, rest) ← primary regexp fuel depth (next (next ts))
      v ← match_str regexp (peek ts) pat
      ok (v, rest)
    in if beq (peek ts) (codes "(")
      then inner
      else if beq (peek ts) []
      then err unexpected_end
      else if beq (peek (next ts)) (codes ":")
      then matched
      else ok (peek ts, next ts)

pub parse : Regexp → ℕ → Parser
unfolding primary
parse regexp fuel = or_level fuel (unary regexp (primary regexp fuel fuel))

-- The result and the exit code.
pub finish : Bytes × Tokens → Result Error (Bytes × ℕ)
finish (v, rest) = if done rest then ok (v, exit_code v) else err (unexpected (peek rest))

-- `Eval`. Fuel for as many rounds as there are tokens, and one, is enough for each loop and for the
-- calls within each other. The exit code of an error is 2.
pub eval : Regexp → Tokens → Result Error (Bytes × ℕ)
unfolding parse finish
eval regexp [] = err missing_operand
eval regexp (t ∷ ts) = (parse regexp (length (t ∷ ts) + 1) (t ∷ ts) >>= finish)
