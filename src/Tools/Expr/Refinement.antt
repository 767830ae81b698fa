-- ===== src/Tools/Expr/Refinement.antt =====
-- What `Eval` gives for the tokens of an expression of the grammar of `expr`.
use go_posix.Base.{
  ℕ, zero, suc, ◌+◌, ◌≤◌, ◌≡◌, ◌∙◌, refl, sym, ap, subst, false, [], ◌∷◌, ◌++◌, append-nil, beq,
  Bytes, codes, arith, ◌≢◌, ltb, ◌==◌, Bool-cases, length, ok, err, ◌>>=◌, inl, inr,
}
use go_posix.Tools.Expr.Values.{Value, Regexp, exit_code, is_or, is_and, is_compare, is_add, is_mul}
use go_posix.Tools.Expr.Grammar.{
  Operator, rank, token, Expr, atom, binary, match_at, match_of, index_of, substr_of, length_of,
  value, print, wrap, is_reserved, IsPlain, size,
}
use go_posix.Tools.Expr.Operators.{is_op, goes_on, Stops}
use go_posix.Tools.Expr.Parsing.{at_level, Reads, Chains-Reads, Chains-snoc}
use go_posix.Tools.Expr.Operands.{
  plain, Reads-atom, Reads-match_at, Reads-match_of, Reads-index_of, Reads-substr_of,
  Reads-length_of,
}
use go_posix.Tools.Expr.{Tokens, peek, done, parse, finish, eval}
use go_posix.Tools.Expr.Sizes.{size-print, size_positive}
use go_posix.Tools.Expr.Places.{
  rank_bound, Opens-print, Chained, Good, wrapped, single, Good-function, Good-operand,
}

module _ (regexp : Regexp) (fuel : ℕ) where
  module _ (o : Operator) (a b : Expr) (enough : size (binary o a b) ≤ fuel)
      (good_a : Good regexp fuel a) (good_b : Good regexp fuel b) where
    abbrev body : Tokens
    body = print (rank o) a ++ token o ∷ print (suc (rank o)) b

    body-Chained :
        (d : ℕ)
        → size (binary o a b) ≤ suc d
        → Chained regexp fuel d (rank o) body (value regexp (binary o a b)) (size (binary o a b))
    unfolding value
    body-Chained d h =
        let left = good_a.chained d (rank o) (omega arith) (rank_bound o) in
        let right = good_b.reads d (suc (rank o)) (omega arith) (omega (arith, rank_bound o)) in
        record {
          rounds = suc left.rounds;
          enough = omega (arith, left.enough);
          chains =
              Chains-snoc regexp fuel d left.rounds (print (rank o) a) (print (suc (rank o)) b)
                (value regexp a) (value regexp b) o left.chains right;
        }

    body-Reads :
        (d : ℕ)
        → size (binary o a b) ≤ suc d
        → Reads regexp fuel d (rank o) body (value regexp (binary o a b))
    body-Reads d h =
        let chained = body-Chained d h in
        Chains-Reads regexp fuel d (rank o) chained.rounds body (value regexp (binary o a b))
          (rank_bound o) (omega (arith, chained.enough)) chained.chains

    print-binary : (n : ℕ) → print n (binary o a b) ≡ wrap (ltb (rank o) n) body
    unfolding print
    print-binary n = refl

    own-Chained :
        (d n : ℕ)
        → size (binary o a b) ≤ d
        → rank o ≡ n
        → Chained regexp fuel d n
            (print n (binary o a b))
            (value regexp (binary o a b))
            (size (binary o a b))
    own-Chained d n h same =
        let bare : ltb (rank o) n ≡ false = ground arith in
        rw (print-binary n) (
          rw bare (
            subst
              (λ k.
                Chained regexp fuel d k body (value regexp (binary o a b)) (size (binary o a b)))
              same (body-Chained d (omega arith))))

    other_print : (n : ℕ) → rank o ≢ n → print (suc n) (binary o a b) ≡ print n (binary o a b)
    other_print n ne =
        let test : ltb (rank o) (suc n) ≡ ltb (rank o) n = ground arith in
        print-binary (suc n) ∙ ap (λ c. wrap c body) test ∙ sym (print-binary n)

    Good-binary : Good regexp fuel (binary o a b)
    Good-binary =
        let everywhere =
          wrapped regexp fuel (binary o a b) (rank o) body (omega (arith, rank_bound o))
            (omega arith) print-binary body-Reads in
        record {
          reads = everywhere;
          chained = λ d n h bound. elim (Bool-cases (rank o == n)) [
            | inl e ↦ own-Chained d n h (ground arith)
            | inr e ↦
                single regexp fuel (binary o a b) everywhere d n (other_print n (ground arith)) h
                  bound
          ];
        }

  atom-Reads :
      (a : Bytes) (d : ℕ) → is_reserved a ≡ false → 1 ≤ d → Reads regexp fuel d 6 (a ∷ []) (ok a)
  atom-Reads a zero h le = absurd (omega arith)
  atom-Reads a (suc d) h le = Reads-atom regexp fuel d a h

  match_at-Reads :
      (str : Bytes) (b : Expr) (d : ℕ)
      → is_reserved str ≡ false
      → Good regexp fuel b
      → 1 + size b ≤ d
      → Reads regexp fuel d 6 (str ∷ codes ":" ∷ print 6 b) (value regexp (match_at str b))
  unfolding value
  match_at-Reads str b zero h g le = absurd (omega arith)
  match_at-Reads str b (suc d) h g le =
      Reads-match_at regexp fuel d str (print 6 b) (value regexp b) h
        (g.reads d 6 (omega arith) (omega arith))

  good : (e : Expr) → IsPlain e → size e ≤ fuel → Good regexp fuel e
  unfolding value print
  good (atom a) h enough =
      Good-operand regexp fuel (atom a) (a ∷ []) (λ n. refl) (plain h) (λ d. atom-Reads a d h)
  good (binary o a b) h enough =
      Good-binary o a b enough (good a h.0 (omega arith)) (good b h.1 (omega arith))
  good (match_at str b) h enough =
      let pattern = good b h.1 (omega arith) in
      Good-operand regexp fuel (match_at str b) (str ∷ codes ":" ∷ print 6 b) (λ n. refl)
        (plain h.0) (λ d. match_at-Reads str b d h.0 pattern)
  good (match_of a b) h enough =
      let left = good a h.0 (omega arith) in
      let right = good b h.1 (omega arith) in
      Good-function regexp fuel (match_of a b) (codes "match" ∷ print 6 a ++ print 6 b)
        (omega arith) (λ n. refl)
        (λ d enough.
          Reads-match_of regexp fuel d (print 6 a) (print 6 b) _ _ (Opens-print b h.1)
            (left.reads d 6 (omega arith) (omega arith))
            (right.reads d 6 (omega arith) (omega arith)))
  good (index_of a b) h enough =
      let left = good a h.0 (omega arith) in
      let right = good b h.1 (omega arith) in
      Good-function regexp fuel (index_of a b) (codes "index" ∷ print 6 a ++ print 6 b)
        (omega arith) (λ n. refl)
        (λ d enough.
          Reads-index_of regexp fuel d (print 6 a) (print 6 b) _ _ (Opens-print b h.1)
            (left.reads d 6 (omega arith) (omega arith))
            (right.reads d 6 (omega arith) (omega arith)))
  good (substr_of a b c) h enough =
      let text = good a h.0 (omega arith) in
      let position = good b h.1 (omega arith) in
      let len = good c h.2 (omega arith) in
      Good-function regexp fuel (substr_of a b c)
        (codes "substr" ∷ print 6 a ++ print 6 b ++ print 6 c) (omega arith) (λ n. refl)
        (λ d enough.
          Reads-substr_of regexp fuel d (print 6 a) (print 6 b) (print 6 c) _ _ _
            (Opens-print b h.1) (Opens-print c h.2) (text.reads d 6 (omega arith) (omega arith))
            (position.reads d 6 (omega arith) (omega arith))
            (len.reads d 6 (omega arith) (omega arith)))
  good (length_of a) h enough =
      let operand = good a h (omega arith) in
      Good-function regexp fuel (length_of a) (codes "length" ∷ print 6 a) (omega arith) (λ n. refl)
        (λ d enough.
          Reads-length_of regexp fuel d (print 6 a) _ (Opens-print a h)
            (operand.reads d 6 (omega arith) (omega arith)))

eval-some :
    (regexp : Regexp) (ts : Tokens)
    → 1 ≤ length ts
    → eval regexp ts ≡ (parse regexp (length ts + 1) ts >>= finish)
unfolding eval
eval-some regexp [] h = absurd (omega arith)
eval-some regexp (t ∷ ts) h = refl

Stops-end : Stops 0 []
unfolding goes_on is_op is_or is_and is_compare is_add is_mul beq peek
Stops-end = refl

finish-value : (v : Value) → ((v >>= λ x. ok (x, [])) >>= finish) ≡ (v >>= λ x. ok (x, exit_code x))
unfolding finish done
finish-value (ok x) = refl
finish-value (err e) = refl

-- `Eval` gives the value of an expression with its exit code, or its error, on the tokens of the
-- expression, when no operand of it is reserved.
pub eval-print :
    (regexp : Regexp) (e : Expr)
    → IsPlain e
    → eval regexp (print 0 e) ≡ (value regexp e >>= λ v. ok (v, exit_code v))
unfolding parse at_level
eval-print regexp e h =
    let ts = print 0 e in
    let fuel = length ts + 1 in
    let whole = good regexp fuel e h (omega (arith, size-print 0 e)) in
    eval-some regexp ts (omega (arith, size-print 0 e, size_positive e))
    ∙ ap (λ all. parse regexp fuel all >>= finish) (sym (append-nil ts))
    ∙ rw (whole.reads fuel 0 (omega (arith, size-print 0 e)) (omega arith) [] Stops-end)
        (finish-value (value regexp e))
