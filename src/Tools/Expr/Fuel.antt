-- ===== src/Tools/Expr/Fuel.antt =====
-- What the parsers of `expr` leave of the tokens, and the fuel of their loops.
use go_posix.Base.{
  ℕ, zero, suc, ◌+◌, ◌≤◌, ◌<◌, ◌≡◌, ◌≢◌, refl, subst, Bool, true, false, ◌||◌, [], ◌∷◌, Bytes, beq,
  codes, arith, length, if◌then◌else◌, Result, ok, err, ◌>>=◌,
}
use go_posix.Tools.Expr.Values.{Error, out_of_fuel, Value, Regexp}
use go_posix.Tools.Expr.{
  Tokens, Parser, peek, next, done, loop, level, mul_level, add_level, compare_level, and_level,
  or_level, unary, close, primary, parse, finish, eval,
}
use go_posix.Tools.Expr.Errors.{
  OfSource, Real, value, raised, IsLevel, or-IsLevel, and-IsLevel, compare-IsLevel, add-IsLevel,
  mul-IsLevel, substr_str-Real, match_str-Real,
}

-- Fewer than `n` tokens are left, or there is an error of the source.
pub data Left (n : ℕ) : Result Error (Bytes × Tokens) → Type 0 where
  took : {v : Bytes} {rest : Tokens} → length rest < n → Left n (ok (v, rest))
  failed : {e : Error} → OfSource e → Left n (err e)

-- On up to `n` tokens the parser takes one at least.
abbrev Takes : ℕ → Parser → Type 0
Takes n p = (ts : Tokens) → length ts ≤ n → Left (length ts) (p ts)

Left-bind :
    {n m : ℕ} {r : Result Error (Bytes × Tokens)}
    (f : Bytes × Tokens → Result Error (Bytes × Tokens))
    → Left n r
    → ((v : Bytes) (rest : Tokens) → length rest < n → Left m (f (v, rest)))
    → Left m (r >>= f)
Left-bind f (took {v} {rest} h) k = k v rest h
Left-bind f (failed h) k = failed h

Real-bind :
    {m : ℕ} {r : Value} {f : Bytes → Result Error (Bytes × Tokens)}
    → Real r
    → ((v : Bytes) → Left m (f v))
    → Left m (r >>= f)
Real-bind (value {v}) k = k v
Real-bind (raised h) k = failed h

Left-weaken : {n m : ℕ} {r : Result Error (Bytes × Tokens)} → n ≤ m → Left n r → Left m r
Left-weaken le (took h) = took (omega arith)
Left-weaken le (failed h) = failed h

Left-if :
    {n : ℕ} {r s : Result Error (Bytes × Tokens)} (b : Bool)
    → (b ≡ true → Left n r)
    → (b ≡ false → Left n s)
    → Left n (if b then r else s)
Left-if true h k = h refl
Left-if false h k = k refl

module _ (is_op : Bytes → Bool) (combine : Bytes → Bytes → Bytes → Value)
    (ok_level : IsLevel is_op combine) (sub : Parser) where
  loop-Left :
      (n fuel : ℕ) (left : Bytes) (ts : Tokens)
      → Takes n sub
      → length ts ≤ n
      → length ts ≤ fuel
      → Left (suc (length ts)) (loop is_op combine sub fuel left ts)
  unfolding loop peek next
  loop-Left n zero left [] h len le = rw ok_level.at_end (took (omega arith))
  loop-Left n zero left (t ∷ ts) h len le = absurd (omega arith)
  loop-Left n (suc fuel) left [] h len le = rw ok_level.at_end (took (omega arith))
  loop-Left n (suc fuel) left (t ∷ ts) h len le =
      Left-if (is_op t)
        (λ _. Left-bind _ (h ts (omega arith)) (λ right rest shorter.
          Real-bind (ok_level.real t left right) (λ v.
            Left-weaken (omega arith) (loop-Left n fuel v rest h (omega arith) (omega arith)))))
        (λ _. took (omega arith))

  level-Takes : (n fuel : ℕ) → n ≤ fuel → Takes n sub → Takes n (level is_op combine fuel sub)
  unfolding level
  level-Takes n fuel le h ts len = Left-bind _ (h ts len) (λ left rest shorter.
      Left-weaken (omega arith) (loop-Left n fuel left rest h (omega arith) (omega arith)))

-- The five levels, above a parser of the operands of `*`.
or_level-Takes : (n fuel : ℕ) (sub : Parser) → n ≤ fuel → Takes n sub → Takes n (or_level fuel sub)
unfolding or_level and_level compare_level add_level mul_level
or_level-Takes n fuel sub le h = level-Takes _ _ or-IsLevel _ n fuel le (
    level-Takes _ _ and-IsLevel _ n fuel le (
      level-Takes _ _ compare-IsLevel _ n fuel le
        (level-Takes _ _ add-IsLevel _ n fuel le (level-Takes _ _ mul-IsLevel _ n fuel le h))))

unary-Takes : (regexp : Regexp) (n : ℕ) (p : Parser) → Takes n p → Takes n (unary regexp p)
unfolding unary peek next done beq
unary-Takes regexp n p h [] len = h [] len
unary-Takes regexp n p h (t ∷ ts) len =
    Left-if (beq t (codes "match"))
      (λ _. Left-bind _ (h ts (omega arith)) (λ str rest l.
        Left-bind _ (h rest (omega arith)) (λ pat rest' l'.
          Real-bind (match_str-Real regexp str pat) (λ v. took {rest = rest'} (omega arith)))))
      (λ _.
        Left-if (beq t (codes "substr"))
          (λ _. Left-bind _ (h ts (omega arith)) (λ str rest l.
            Left-bind _ (h rest (omega arith)) (λ position rest' l'.
              Left-bind _ (h rest' (omega arith)) (λ len' rest'' l''.
                Real-bind (substr_str-Real str position len')
                  (λ v. took {rest = rest''} (omega arith))))))
          (λ _.
            Left-if (beq t (codes "index"))
              (λ _. Left-bind _ (h ts (omega arith)) (λ str rest l.
                Left-bind _ (h rest (omega arith))
                  (λ chars rest' l'. took {rest = rest'} (omega arith))))
              (λ _.
                Left-if (beq t (codes "length"))
                  (λ _.
                    Left-if
                      (done ts
                        || beq (peek ts) (codes ")")
                        || beq (peek ts) (codes "|")
                        || beq (peek ts) (codes "&"))
                      (λ _. failed tt)
                      (λ _.
                        Left-bind _ (h ts (omega arith))
                          (λ str rest l. took {rest = rest} (omega arith))))
                  (λ _. h (t ∷ ts) len))))

length-next : (ts : Tokens) → length (next ts) ≤ length ts
unfolding next
length-next [] = omega arith
length-next (t ∷ ts) = omega arith

close-Left : (v : Bytes) (rest : Tokens) (n : ℕ) → length rest < n → Left n (close (v, rest))
unfolding close next peek
close-Left v [] n h = Left-if (beq (peek []) (codes ")")) (λ _. took h) (λ _. failed tt)
close-Left v (t ∷ rest) n h =
    Left-if (beq t (codes ")")) (λ _. took {v = v} {rest = rest} (omega arith)) (λ _. failed tt)

module _ (regexp : Regexp) (fuel : ℕ) where
  primary-Takes : (depth n : ℕ) → n < depth → n ≤ fuel → Takes n (primary regexp fuel depth)
  unfolding primary peek next beq
  primary-Takes zero n h le ts len = absurd (omega arith)
  primary-Takes (suc depth) n h le [] len = failed tt
  primary-Takes (suc depth) n h le (t ∷ ts) len =
      let deeper = primary-Takes depth (length ts) (omega arith) (omega arith) in
      Left-if (beq t (codes "("))
        (λ _.
          Left-bind _
            (or_level-Takes (length ts) fuel _ (omega arith)
              (unary-Takes regexp (length ts) (primary regexp fuel depth) deeper) ts (omega arith))
            (λ v rest l. close-Left v rest (suc (length ts)) (omega arith)))
        (λ _.
          Left-if (beq t []) (λ _. failed tt)
            (λ _.
              Left-if (beq (peek ts) (codes ":"))
                (λ _. Left-bind _ (deeper (next ts) (length-next ts)) (λ pat rest l.
                  Real-bind (match_str-Real regexp t pat)
                    (λ v. took {rest = rest} (omega (arith, length-next ts)))))
                (λ _. took {rest = ts} (omega arith))))

-- An error, if there is one, is of the source.
abbrev FromSource : Result Error (Bytes × ℕ) → Type 0
FromSource (ok v) = Unit
FromSource (err e) = OfSource e

FromSource-if :
    (r s : Result Error (Bytes × ℕ)) (b : Bool)
    → FromSource r
    → FromSource s
    → FromSource (if b then r else s)
FromSource-if r s true h k = h
FromSource-if r s false h k = k

finish-FromSource :
    {n : ℕ} {r : Result Error (Bytes × Tokens)} → Left n r → FromSource (r >>= finish)
unfolding finish
finish-FromSource (took {v} {rest} h) = FromSource-if _ _ (done rest) tt tt
finish-FromSource (failed h) = h

-- Whatever the tokens are, `Eval` ends: with a result, or with an error of the source.
pub eval-Ends : (regexp : Regexp) (ts : Tokens) → eval regexp ts ≢ err out_of_fuel
unfolding eval parse
eval-Ends regexp [] = λ e. cc
eval-Ends regexp (t ∷ ts) =
    let fuel = length (t ∷ ts) + 1 in
    let operand = primary-Takes regexp fuel fuel (length (t ∷ ts)) (omega arith) (omega arith) in
    let whole =
      or_level-Takes (length (t ∷ ts)) fuel _ (omega arith)
        (unary-Takes regexp (length (t ∷ ts)) (primary regexp fuel fuel) operand) (t ∷ ts)
        (omega arith) in
    λ e. subst FromSource e (finish-FromSource whole)
