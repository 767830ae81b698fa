-- ===== src/Tools/TestCmd/Operands.antt =====
-- `test` with one operand, and with an operator between two.
use go_posix.Base.{
  ℕ, suc, ◌≡◌, refl, Bool, true, ◌&&◌, ◌||◌, Bool-cases, inl, inr, [], ◌∷◌, Bytes, beq, codes,
  Result, ok, err, ◌>>=◌,
}
use go_posix.Tools.Expr.{peek, next, done}
use go_posix.Tools.TestCmd.Values.{Error, Files, is_unary_op, is_binary_op, eval_binary}
use go_posix.Tools.TestCmd.{
  Parser, leaving, has_next, next_is_binary, loop, parse_not, parse_and, parse_or, binary, bare,
  operand, primary, finish, evaluate,
}

module _ (files : Files) (left op right : Bytes) (is_binary : is_binary_op op ≡ true) where
  operand-binary :
      operand files (left ∷ op ∷ right ∷ []) ≡ (eval_binary left op right >>= leaving [])
  unfolding operand bare binary has_next next_is_binary peek next done
  operand-binary = elim (Bool-cases (is_unary_op left)) [
    | inl e ↦ rw e (rw is_binary refl)
    | inr e ↦ rw e (rw is_binary refl)
  ]

  primary-binary :
      (fuel depth : ℕ)
      → primary files fuel (suc depth) (left ∷ op ∷ right ∷ [])
        ≡ (eval_binary left op right >>= leaving [])
  unfolding primary has_next next_is_binary peek next
  primary-binary fuel depth = elim (Bool-cases (beq left (codes "("))) [
    | inl e ↦ rw e (rw is_binary operand-binary)
    | inr e ↦ rw e operand-binary
  ]

  parse_not-binary :
      (p : Parser) → parse_not p (left ∷ op ∷ right ∷ []) ≡ p (left ∷ op ∷ right ∷ [])
  unfolding parse_not has_next next_is_binary peek next
  parse_not-binary p = elim (Bool-cases (beq left (codes "!"))) [
    | inl e ↦ rw e (rw is_binary refl)
    | inr e ↦ rw e refl
  ]

-- Behind the last token no loop goes on.
finish-ends :
    (r : Result Error Bool) (fuel : ℕ) (p q : Parser)
    → ((((r >>= leaving []) >>= λ (v, rest). loop (codes "-a") (λ a b. a && b) p (suc fuel) v rest)
          >>= λ (v, rest). loop (codes "-o") (λ a b. a || b) q (suc fuel) v rest)
        >>= finish)
      ≡ r
unfolding loop finish peek done beq
finish-ends (ok v) fuel p q = refl
finish-ends (err e) fuel p q = refl

-- A binary operator between two texts is applied to them, whatever they are: "!", "(" and the unary operators
-- too.
pub evaluate-binary :
    (files : Files) (left op right : Bytes)
    → is_binary_op op ≡ true
    → evaluate files (left ∷ op ∷ right ∷ []) ≡ eval_binary left op right
unfolding evaluate parse_or parse_and
evaluate-binary files left op right h =
    let p = primary files 4 4 in
    rw (parse_not-binary files left op right h p) (
      rw (primary-binary files left op right h 4 3)
        (finish-ends (eval_binary left op right) 3 (parse_not p) (parse_and 4 p)))
