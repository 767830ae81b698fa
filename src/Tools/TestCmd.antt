-- ===== src/Tools/TestCmd.antt =====
-- pkg/testcmd/testcmd.go: the expressions of `test`, evaluated as they are parsed.
-- The cursor of pkg/common/cursor.go is the tokens that are left, as in Tools/Expr.
pub mod Values
mod Errors
mod Fuel
mod Operands
mod Tests
use go_posix.Base.{
  ℕ, zero, suc, ◌+◌, Bool, true, false, not, ◌&&◌, ◌||◌, List, [], ◌∷◌, Bytes, beq, codes,
  if◌then◌else◌, length, Result, ok, err, ◌>>=◌,
}
use go_posix.Tools.Expr.{Tokens, peek, next, done}
use go_posix.Tools.TestCmd.Values.{
  Error, unexpected_argument, missing_paren, missing_argument, out_of_fuel, Files, is_unary_op,
  is_binary_op, eval_unary, eval_binary,
}

abbrev pub Parser : Type 0
Parser = Tokens → Result Error (Bool × Tokens)

abbrev pub leaving : Tokens → Bool → Result Error (Bool × Tokens)
leaving rest v = ok (v, rest)

-- `p.Has(1)`, and with it `isBinaryOp(p.Lookahead(1))`
pub has_next : Tokens → Bool
has_next (t ∷ u ∷ ts) = true
has_next _ = false

pub next_is_binary : Tokens → Bool
next_is_binary ts = has_next ts && is_binary_op (peek (next ts))

-- The loops of `parseOr` and `parseAnd`: while the next token is the separator, take it and an operand.
pub loop : Bytes → (Bool → Bool → Bool) → Parser → ℕ → Bool → Parser
loop separator combine sub zero left ts =
    if beq (peek ts) separator then err out_of_fuel else ok (left, ts)
loop separator combine sub (suc fuel) left ts =
    let more = (do
      (right, rest) ← sub (next ts)
      loop separator combine sub fuel (combine left right) rest) in
    if beq (peek ts) separator then more else ok (left, ts)

-- `parseNot`, above `parsePrimary`. (No error has the text that it looks for.)
pub parse_not : Parser → Parser
parse_not primary [] = primary []
parse_not primary (t ∷ ts) =
    let negated = (do (v, rest) ← parse_not primary ts; ok (not v, rest)) in
    if beq t (codes "!")
    then (if next_is_binary (t ∷ ts)
        then primary (t ∷ ts)
        else if done ts
        then ok (true, ts)
        else negated)
    else primary (t ∷ ts)

pub parse_and : ℕ → Parser → Parser
parse_and fuel primary ts = do
  (left, rest) ← parse_not primary ts
  loop (codes "-a") (λ a b. a && b) (parse_not primary) fuel left rest

-- `parseExpr` and `parseOr`
pub parse_or : ℕ → Parser → Parser
parse_or fuel primary ts = do
  (left, rest) ← parse_and fuel primary ts
  loop (codes "-o") (λ a b. a || b) (parse_and fuel primary) fuel left rest

-- An operator with its right operand, or its absence, behind the left one.
pub binary : Bytes → Parser
binary left ts =
    if done (next ts)
    then err (missing_argument (peek ts))
    else (eval_binary left (peek ts) (peek (next ts)) >>= leaving (next (next ts)))

-- The end of `parsePrimary`: a comparison, or a text on its own.
pub bare : Bytes → Parser
bare left ts =
    if not (done ts) && is_binary_op (peek ts) then binary left ts else ok (not (beq left []), ts)

-- `parsePrimary` but for parentheses.
pub operand : Files → Parser
operand files ts =
    if is_unary_op (peek ts)
    then (if has_next ts && not (next_is_binary ts)
        then (eval_unary files (peek ts) (peek (next ts)) >>= leaving (next (next ts)))
        else bare (peek ts) (next ts))
    else if done ts
    then ok (false, ts)
    else bare (peek ts) (next ts)

-- The `)` behind an expression in parentheses.
pub close : Bool × Tokens → Result Error (Bool × Tokens)
close (v, rest) = if beq (peek rest) (codes ")") then ok (v, next rest) else err missing_paren

-- `parsePrimary`. Each call of it within another takes a unit of `depth`; `fuel` is for the loops.
pub primary : Files → ℕ → ℕ → Parser
primary files fuel zero ts = err out_of_fuel
primary files fuel (suc depth) ts =
    let inner = (parse_or fuel (primary files fuel depth) (next ts) >>= close) in
    if beq (peek ts) (codes "(") && not (next_is_binary ts) then inner else operand files ts

pub finish : Bool × Tokens → Result Error Bool
finish (v, rest) = if done rest then ok v else err (unexpected_argument (peek rest))

-- `Evaluate`. Fuel for as many rounds as there are tokens, and one, is enough for each loop and for the
-- calls within each other.
pub evaluate : Files → Tokens → Result Error Bool
evaluate files [] = ok false
evaluate files (t ∷ ts) =
    let fuel = length (t ∷ ts) + 1 in (parse_or fuel (primary files fuel fuel) (t ∷ ts) >>= finish)
