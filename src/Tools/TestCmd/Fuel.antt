-- ===== src/Tools/TestCmd/Fuel.antt =====
-- What the parsers of `test` leave of the tokens, and the fuel of their loops.
use go_posix.Base.{
  ℕ, zero, suc, ◌+◌, ◌≤◌, ◌<◌, ◌≡◌, ◌≢◌, refl, subst, Bool, true, false, not, ◌&&◌, [], ◌∷◌, Bytes,
  beq, codes, arith, length, if◌then◌else◌, Result, ok, err, ◌>>=◌,
}
use go_posix.Tools.Expr.{Tokens, peek, next, done}
use go_posix.Tools.TestCmd.Values.{
  Error, out_of_fuel, Files, is_unary_op, is_binary_op, eval_unary, eval_binary,
}
use go_posix.Tools.TestCmd.{
  Parser, leaving, has_next, next_is_binary, loop, parse_not, parse_and, parse_or, binary, bare,
  operand, close, primary, finish, evaluate,
}
use go_posix.Tools.TestCmd.Errors.{
  OfSource, FromSource, FromSource-if, eval_unary-FromSource, eval_binary-FromSource,
}

-- At most `n` tokens are left, or there is an error of the source.
data Kept (n : ℕ) : Result Error (Bool × Tokens) → Type 0 where
  kept : {v : Bool} {rest : Tokens} → length rest ≤ n → Kept n (ok (v, rest))
  failed : {e : Error} → OfSource e → Kept n (err e)

-- On up to `n` tokens the parser leaves no more than there are.
abbrev Keeps : ℕ → Parser → Type 0
Keeps n p = (ts : Tokens) → length ts ≤ n → Kept (length ts) (p ts)

Kept-bind :
    {n m : ℕ} {r : Result Error (Bool × Tokens)} (f : Bool × Tokens → Result Error (Bool × Tokens))
    → Kept n r
    → ((v : Bool) (rest : Tokens) → length rest ≤ n → Kept m (f (v, rest)))
    → Kept m (r >>= f)
Kept-bind f (kept {v} {rest} h) k = k v rest h
Kept-bind f (failed h) k = failed h

Kept-leaving :
    (n : ℕ) (r : Result Error Bool) (rest : Tokens)
    → FromSource r
    → length rest ≤ n
    → Kept n (r >>= leaving rest)
Kept-leaving n (ok v) rest h le = kept le
Kept-leaving n (err e) rest h le = failed h

Kept-weaken : {n m : ℕ} {r : Result Error (Bool × Tokens)} → n ≤ m → Kept n r → Kept m r
Kept-weaken le (kept h) = kept (omega arith)
Kept-weaken le (failed h) = failed h

Kept-if :
    {n : ℕ} {r s : Result Error (Bool × Tokens)} (b : Bool)
    → (b ≡ true → Kept n r)
    → (b ≡ false → Kept n s)
    → Kept n (if b then r else s)
Kept-if true h k = h refl
Kept-if false h k = k refl

loop-Kept :
    (separator : Bytes) (combine : Bool → Bool → Bool) (sub : Parser) (n fuel : ℕ) (left : Bool)
    (ts : Tokens)
    → beq [] separator ≡ false
    → Keeps n sub
    → length ts ≤ n
    → length ts ≤ fuel
    → Kept (length ts) (loop separator combine sub fuel left ts)
unfolding loop peek next
loop-Kept separator combine sub n zero left [] e h len le = rw e (kept (omega arith))
loop-Kept separator combine sub n zero left (t ∷ ts) e h len le = absurd (omega arith)
loop-Kept separator combine sub n (suc fuel) left [] e h len le = rw e (kept (omega arith))
loop-Kept separator combine sub n (suc fuel) left (t ∷ ts) e h len le =
    Kept-if (beq t separator)
      (λ _. Kept-bind _ (h ts (omega arith)) (λ right rest shorter. Kept-weaken (omega arith) (
        loop-Kept separator combine sub n fuel (combine left right) rest e h (omega arith)
          (omega arith))))
      (λ _. kept (omega arith))

parse_not-Keeps : (n : ℕ) (p : Parser) → Keeps n p → Keeps n (parse_not p)
unfolding parse_not
parse_not-Keeps n p h [] len = h [] len
parse_not-Keeps n p h (t ∷ ts) len =
    Kept-if (beq t (codes "!"))
      (λ _.
        Kept-if (next_is_binary (t ∷ ts)) (λ _. h (t ∷ ts) len)
          (λ _.
            Kept-if (done ts) (λ _. kept {rest = ts} (omega arith))
              (λ _.
                Kept-bind _ (parse_not-Keeps n p h ts (omega arith))
                  (λ v rest l. kept {rest = rest} (omega arith)))))
      (λ _. h (t ∷ ts) len)

parse_and-Keeps : (n fuel : ℕ) (p : Parser) → n ≤ fuel → Keeps n p → Keeps n (parse_and fuel p)
unfolding parse_and beq
parse_and-Keeps n fuel p le h ts len = Kept-bind _ (parse_not-Keeps n p h ts len) (λ left rest l.
    Kept-weaken (omega arith) (
      loop-Kept (codes "-a") _ (parse_not p) n fuel left rest refl (parse_not-Keeps n p h)
        (omega arith) (omega arith)))

parse_or-Keeps : (n fuel : ℕ) (p : Parser) → n ≤ fuel → Keeps n p → Keeps n (parse_or fuel p)
unfolding parse_or beq
parse_or-Keeps n fuel p le h ts len =
    Kept-bind _ (parse_and-Keeps n fuel p le h ts len) (λ left rest l. Kept-weaken (omega arith) (
      loop-Kept (codes "-o") _ (parse_and fuel p) n fuel left rest refl
        (parse_and-Keeps n fuel p le h) (omega arith) (omega arith)))

length-next : (ts : Tokens) → length (next ts) ≤ length ts
unfolding next
length-next [] = omega arith
length-next (t ∷ ts) = omega arith

binary-Kept : (left : Bytes) (ts : Tokens) → Kept (length ts) (binary left ts)
unfolding binary
binary-Kept left ts =
    Kept-if (done (next ts)) (λ _. failed tt)
      (λ _.
        Kept-leaving (length ts) (eval_binary left (peek ts) (peek (next ts))) (next (next ts))
          (eval_binary-FromSource left (peek ts) (peek (next ts)))
          (omega (arith, length-next ts, length-next (next ts))))

bare-Kept : (left : Bytes) (ts : Tokens) → Kept (length ts) (bare left ts)
unfolding bare
bare-Kept left ts =
    Kept-if (not (done ts) && is_binary_op (peek ts)) (λ _. binary-Kept left ts)
      (λ _. kept {rest = ts} (omega arith))

operand-Kept : (files : Files) (ts : Tokens) → Kept (length ts) (operand files ts)
unfolding operand
operand-Kept files ts =
    let rest = Kept-weaken (length-next ts) (bare-Kept (peek ts) (next ts)) in
    Kept-if (is_unary_op (peek ts))
      (λ _.
        Kept-if (has_next ts && not (next_is_binary ts))
          (λ _.
            Kept-leaving (length ts) (eval_unary files (peek ts) (peek (next ts))) (next (next ts))
              (eval_unary-FromSource files (peek ts) (peek (next ts)))
              (omega (arith, length-next ts, length-next (next ts))))
          (λ _. rest))
      (λ _. Kept-if (done ts) (λ _. kept {rest = ts} (omega arith)) (λ _. rest))

close-Kept : (v : Bool) (rest : Tokens) (n : ℕ) → length rest ≤ n → Kept n (close (v, rest))
unfolding close
close-Kept v rest n h =
    Kept-if (beq (peek rest) (codes ")"))
      (λ _. kept {v = v} {rest = next rest} (omega (arith, length-next rest))) (λ _. failed tt)

module _ (files : Files) (fuel : ℕ) where
  primary-Keeps : (depth n : ℕ) → n < depth → n ≤ fuel → Keeps n (primary files fuel depth)
  unfolding primary peek next beq
  primary-Keeps zero n h le ts len = absurd (omega arith)
  primary-Keeps (suc depth) n h le [] len = operand-Kept files []
  primary-Keeps (suc depth) n h le (t ∷ ts) len =
      Kept-if (beq t (codes "(") && not (next_is_binary (t ∷ ts)))
        (λ _.
          Kept-bind _
            (parse_or-Keeps (length ts) fuel (primary files fuel depth) (omega arith)
              (primary-Keeps depth (length ts) (omega arith) (omega arith)) ts (omega arith))
            (λ v rest l. close-Kept v rest (suc (length ts)) (omega arith)))
        (λ _. operand-Kept files (t ∷ ts))

finish-FromSource :
    {n : ℕ} {r : Result Error (Bool × Tokens)} → Kept n r → FromSource (r >>= finish)
unfolding finish
finish-FromSource (kept {v} {rest} h) = FromSource-if _ _ (done rest) tt tt
finish-FromSource (failed h) = h

-- Whatever the tokens and the files are, `Evaluate` ends: with a truth value, or with an error of the
-- source.
pub evaluate-Ends : (files : Files) (ts : Tokens) → evaluate files ts ≢ err out_of_fuel
unfolding evaluate
evaluate-Ends files [] = λ e. cc
evaluate-Ends files (t ∷ ts) =
    let n = length (t ∷ ts) in
    let whole =
      parse_or-Keeps n (n + 1) (primary files (n + 1) (n + 1)) (omega arith)
        (primary-Keeps files (n + 1) (n + 1) n (omega arith) (omega arith)) (t ∷ ts)
        (omega arith) in
    λ e. subst FromSource e (finish-FromSource whole)
