-- ===== src/Tools/Expr/Parsing.antt =====
-- The parsers of `expr` on the tokens of an expression of its grammar.
use go_posix.Base.{
  ℕ, zero, suc, ◌+◌, ◌-◌, ◌≤◌, ◌≡◌, ◌∙◌, refl, ap, Bool, true, false, ◌∷◌, ◌++◌, append_assoc,
  Bytes, arith, ok, err, ◌>>=◌,
}
use go_posix.Tools.Expr.Values.{Value, Regexp}
use go_posix.Tools.Expr.Grammar.{Operator, rank, token, combine_at}
use go_posix.Tools.Expr.Operators.{
  is_op, Stops, is_op-token, goes_on-token, goes_on-weaken, goes_on-is_op,
}
use go_posix.Tools.Expr.{
  Tokens, Parser, peek, next, loop, level, mul_level, add_level, compare_level, and_level, or_level,
  unary, primary,
}

-- The parsers from `parseOr` to `parsePrimary`, by their levels.
unfoldable pub at_level : Regexp → ℕ → Parser → ℕ → Parser
unfolding or_level and_level compare_level add_level mul_level
at_level regexp fuel p zero = or_level fuel (unary regexp p)
at_level regexp fuel p (suc zero) = and_level fuel (unary regexp p)
at_level regexp fuel p (suc (suc zero)) = compare_level fuel (unary regexp p)
at_level regexp fuel p (suc (suc (suc zero))) = add_level fuel (unary regexp p)
at_level regexp fuel p (suc (suc (suc (suc zero)))) = mul_level fuel (unary regexp p)
at_level regexp fuel p (suc (suc (suc (suc (suc zero))))) = unary regexp p
at_level regexp fuel p _ = p

at_level-level :
    (regexp : Regexp) (fuel : ℕ) (p : Parser) (n : ℕ)
    → n ≤ 4
    → at_level regexp fuel p n
      ≡ level (is_op n) (combine_at n) fuel (at_level regexp fuel p (suc n))
unfolding at_level or_level and_level compare_level add_level mul_level is_op combine_at
at_level-level regexp fuel p zero le = refl
at_level-level regexp fuel p (suc zero) le = refl
at_level-level regexp fuel p (suc (suc zero)) le = refl
at_level-level regexp fuel p (suc (suc (suc zero))) le = refl
at_level-level regexp fuel p (suc (suc (suc (suc zero)))) le = refl
at_level-level regexp fuel p (suc (suc (suc (suc (suc n))))) le = absurd (omega arith)

loop-more :
    (is : Bytes → Bool) (combine : Bytes → Bytes → Bytes → Value) (p : Parser) (f : ℕ) (x t : Bytes)
    (ts : Tokens)
    → is t ≡ true
    → loop is combine p (suc f) x (t ∷ ts)
      ≡ (do (y, rest) ← p ts; z ← combine t x y; loop is combine p f z rest)
unfolding loop peek next
loop-more is combine p f x t ts h = rw h refl

loop-stop :
    (is : Bytes → Bool) (combine : Bytes → Bytes → Bytes → Value) (p : Parser) (f : ℕ) (x : Bytes)
    (ts : Tokens)
    → is (peek ts) ≡ false
    → loop is combine p f x ts ≡ ok (x, ts)
unfolding loop
loop-stop is combine p zero x ts h = rw h refl
loop-stop is combine p (suc f) x ts h = rw h refl

module _ (regexp : Regexp) (fuel : ℕ) where
  abbrev pub parser : ℕ → ℕ → Parser
  parser depth n = at_level regexp fuel (primary regexp fuel depth) n

  -- The parser of a level reads the tokens, gives the value and leaves what follows.
  abbrev pub Reads : ℕ → ℕ → Tokens → Value → Type 0
  Reads depth n ts v =
      (rest : Tokens) → Stops n rest → parser depth n (ts ++ rest) ≡ (v >>= λ x. ok (x, rest))

  abbrev go_on : ℕ → ℕ → ℕ → Bytes → Parser
  go_on depth n f = loop (is_op n) (combine_at n) (parser depth (suc n)) f

  -- With `k` rounds of its loop, the parser of a level reads the tokens and goes on.
  abbrev pub Chains : ℕ → ℕ → Tokens → Value → ℕ → Type 0
  Chains depth n ts v k =
      (f : ℕ) (rest : Tokens)
      → Stops (suc n) rest
      → (parser depth (suc n) (ts ++ rest) >>= λ (x, left). go_on depth n (k + f) x left)
        ≡ (v >>= λ x. go_on depth n f x rest)

  pub Reads-Chains :
      (depth n : ℕ) (ts : Tokens) (v : Value) → Reads depth (suc n) ts v → Chains depth n ts v 0
  Reads-Chains depth n ts (ok x) h f rest s =
      rw (h rest s) (ap (λ f'. go_on depth n f' x rest) (omega arith))
  Reads-Chains depth n ts (err e) h f rest s = rw (h rest s) refl

  go_on-stop :
      (depth n f : ℕ) (v : Value) (rest : Tokens)
      → n ≤ 4
      → Stops n rest
      → (v >>= λ x. go_on depth n f x rest) ≡ (v >>= λ x. ok (x, rest))
  go_on-stop depth n f (ok x) rest le s = loop-stop _ _ _ f x rest (goes_on-is_op n _ le s)
  go_on-stop depth n f (err e) rest le s = refl

  pub Chains-Reads :
      (depth n k : ℕ) (ts : Tokens) (v : Value)
      → n ≤ 4
      → k ≤ fuel
      → Chains depth n ts v k
      → Reads depth n ts v
  unfolding level
  Chains-Reads depth n k ts v le enough h rest s =
      ap (λ p. p (ts ++ rest)) (at_level-level regexp fuel _ n le)
      ∙ ap (λ f. parser depth (suc n) (ts ++ rest) >>= λ (x, left). go_on depth n f x left)
          {x = fuel} {y = k + (fuel - k)} (omega arith)
      ∙ h (fuel - k) rest (goes_on-weaken n _ s)
      ∙ go_on-stop depth n (fuel - k) v rest le s

  go_on-more :
      (depth f : ℕ) (us rest : Tokens) (v w : Value) (o : Operator)
      → Reads depth (suc (rank o)) us w
      → Stops (suc (rank o)) rest
      → (v >>= λ x. go_on depth (rank o) (suc f) x (token o ∷ us ++ rest)) ≡ (
          (do x ← v; y ← w; combine_at (rank o) (token o) x y) >>= λ x.
          go_on depth (rank o) f x rest)
  go_on-more depth f us rest (ok x) (ok y) o r s =
      loop-more _ _ _ f x (token o) (us ++ rest) (is_op-token o) ∙ rw (r rest s) refl
  go_on-more depth f us rest (ok x) (err e) o r s =
      loop-more _ _ _ f x (token o) (us ++ rest) (is_op-token o) ∙ rw (r rest s) refl
  go_on-more depth f us rest (err e) w o r s = refl

  pub Chains-snoc :
      (depth k : ℕ) (ts us : Tokens) (v w : Value) (o : Operator)
      → Chains depth (rank o) ts v k
      → Reads depth (suc (rank o)) us w
      → Chains depth
          (rank o)
          (ts ++ token o ∷ us)
          (do x ← v; y ← w; combine_at (rank o) (token o) x y)
          (suc k)
  unfolding peek
  Chains-snoc depth k ts us v w o h r f rest s =
      let regroup : (ts ++ token o ∷ us) ++ rest ≡ ts ++ (token o ∷ us ++ rest) =
        append_assoc ts (token o ∷ us) rest in
      let rounds : suc k + f ≡ k + suc f = omega arith in
      ap
        (λ all.
          parser depth (suc (rank o)) all >>= λ (x, left). go_on depth (rank o) (suc k + f) x left)
        regroup
      ∙ rw rounds (h (suc f) (token o ∷ us ++ rest) (goes_on-token o))
      ∙ go_on-more depth f us rest v w o r s
