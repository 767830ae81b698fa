-- ===== src/Tools/Expr/Places.antt =====
-- The tokens of an expression of `expr` in a place of any level.
use go_posix.Base.{
  ℕ, zero, suc, ◌≤◌, ◌≡◌, ◌∙◌, sym, ap, subst, true, false, arith, leb, ltb, lt→ltb, Bool-cases,
  inl, inr,
}
use go_posix.Tools.Expr.Values.{Value, Regexp}
use go_posix.Tools.Expr.Grammar.{
  Operator, either, both, equal, unequal, less, at_most, greater, at_least, plus, minus, times,
  divided, modulo, rank, Expr, atom, binary, match_at, match_of, index_of, substr_of, length_of,
  value, print, wrap, IsPlain, size,
}
use go_posix.Tools.Expr.Parsing.{Reads, Chains, Reads-Chains, Chains-Reads}
use go_posix.Tools.Expr.Operands.{Opens, paren, plain, Reads-unary, Reads-group}
use go_posix.Tools.Expr.{Tokens}

pub rank_bound : (o : Operator) → rank o ≤ 4
rank_bound either = omega arith
rank_bound both = omega arith
rank_bound equal = omega arith
rank_bound unequal = omega arith
rank_bound less = omega arith
rank_bound at_most = omega arith
rank_bound greater = omega arith
rank_bound at_least = omega arith
rank_bound plus = omega arith
rank_bound minus = omega arith
rank_bound times = omega arith
rank_bound divided = omega arith
rank_bound modulo = omega arith

-- In a place for one token or parentheses an expression begins with such an operand.
pub Opens-print : (e : Expr) → IsPlain e → Opens (print 6 e)
unfolding print
Opens-print (atom a) h = plain h
Opens-print (binary o a b) h =
    let parens : ltb (rank o) 6 ≡ true = lt→ltb (rank o) 6 (omega (arith, rank_bound o)) in
    rw parens paren
Opens-print (match_at str b) h = plain h.0
Opens-print (match_of a b) h = paren
Opens-print (index_of a b) h = paren
Opens-print (substr_of a b c) h = paren
Opens-print (length_of a) h = paren

module _ (regexp : Regexp) (fuel : ℕ) where
  Reads-step :
      (d n : ℕ) (ts : Tokens) (v : Value)
      → n ≤ 4
      → Reads regexp fuel d (suc n) ts v
      → Reads regexp fuel d n ts v
  Reads-step d n ts v le r =
      Chains-Reads regexp fuel d n 0 ts v le (omega arith) (Reads-Chains regexp fuel d n ts v r)

  -- From a level down to a lower one.
  Reads-below :
      (d n m : ℕ) (ts : Tokens) (v : Value)
      → n ≤ m
      → m ≤ 5
      → Reads regexp fuel d m ts v
      → Reads regexp fuel d n ts v
  Reads-below d n zero ts v le bound r =
      let same : 0 ≡ n = ground arith in subst (λ k. Reads regexp fuel d k ts v) same r
  Reads-below d n (suc m) ts v le bound r = elim (Bool-cases (leb n m)) [
    | inl e ↦
        Reads-below d n m ts v (ground arith) (ground arith) (Reads-step d m ts v (ground arith) r)
    | inr e ↦ let same : suc m ≡ n = ground arith in subst (λ k. Reads regexp fuel d k ts v) same r
  ]

  -- What is read for one operand, in any place.
  Reads-top :
      (d n : ℕ) (ts : Tokens) (v : Value)
      → Opens ts
      → n ≤ 6
      → Reads regexp fuel d 6 ts v
      → Reads regexp fuel d n ts v
  Reads-top d n ts v o bound r = elim (Bool-cases (leb n 5)) [
    | inl e ↦
        Reads-below d n 5 ts v (ground arith) (ground arith) (Reads-unary regexp fuel d ts v o r)
    | inr e ↦ let same : 6 ≡ n = ground arith in subst (λ k. Reads regexp fuel d k ts v) same r
  ]

  -- The tokens of the level `m`, from 5 down, in any place: in parentheses above that level.
  Reads-wrap :
      (d n m : ℕ) (ts : Tokens) (v : Value)
      → m ≤ 5
      → n ≤ 6
      → Reads regexp fuel d m ts v
      → Reads regexp fuel (suc d) m ts v
      → Reads regexp fuel (suc d) n (wrap (ltb m n) ts) v
  Reads-wrap d n m ts v le bound r r' = elim (Bool-cases (ltb m n)) [
    | inl e ↦ rw e (
        Reads-top (suc d) n (wrap true ts) v paren bound
          (Reads-group regexp fuel d ts v (Reads-below d 0 m ts v (ground arith) le r)))
    | inr e ↦ rw e (Reads-below (suc d) n m ts v (ground arith) le r')
  ]

-- An expression is read in every place, and its operators of a level in a row.
pub record Chained (regexp : Regexp) (fuel d n : ℕ) (ts : Tokens) (v : Value) (bound : ℕ)
    : Type 0 where
  pub rounds : ℕ
  pub enough : rounds ≤ bound
  pub chains : Chains regexp fuel d n ts v rounds

pub record Good (regexp : Regexp) (fuel : ℕ) (e : Expr) : Type 0 where
  pub reads : (d n : ℕ) → size e ≤ d → n ≤ 6 → Reads regexp fuel d n (print n e) (value regexp e)
  pub chained :
      (d n : ℕ) → size e ≤ d → n ≤ 4 → Chained regexp fuel d n (print n e) (value regexp e) (size e)

module _ (regexp : Regexp) (fuel : ℕ) where
  -- What is read in places of the levels `n` and `n + 1` with the same tokens.
  Chained-one :
      (d n bound : ℕ) (ts : Tokens) (v : Value)
      → Reads regexp fuel d (suc n) ts v
      → Chained regexp fuel d n ts v bound
  Chained-one d n bound ts v r = record {
    rounds = 0;
    enough = omega arith;
    chains = Reads-Chains regexp fuel d n ts v r;
  }

  -- What is read at its own level `m`, with less depth than it has parts, is read in any place.
  pub wrapped :
      (e : Expr) (m : ℕ) (ts : Tokens)
      → m ≤ 5
      → 1 ≤ size e
      → ((n : ℕ) → print n e ≡ wrap (ltb m n) ts)
      → ((d : ℕ) → size e ≤ suc d → Reads regexp fuel d m ts (value regexp e))
      → (d n : ℕ) → size e ≤ d
      → n ≤ 6
      → Reads regexp fuel d n (print n e) (value regexp e)
  wrapped e m ts le one p r zero n h bound = absurd (omega arith)
  wrapped e m ts le one p r (suc d) n h bound =
      rw (p n) (
        Reads-wrap regexp fuel d n m ts (value regexp e) le bound (r d h) (r (suc d) (omega arith)))

  -- An expression that has no operator of the level `n` outside parentheses.
  pub single :
      (e : Expr)
      → ((d n : ℕ) → size e ≤ d → n ≤ 6 → Reads regexp fuel d n (print n e) (value regexp e))
      → (d n : ℕ) → print (suc n) e ≡ print n e
      → size e ≤ d
      → n ≤ 4
      → Chained regexp fuel d n (print n e) (value regexp e) (size e)
  single e r d n same h bound = Chained-one d n (size e) (print n e) (value regexp e) (
      subst (λ ts. Reads regexp fuel d (suc n) ts (value regexp e)) same
        (r d (suc n) h (omega arith)))

  pub Good-function :
      (e : Expr) (ts : Tokens)
      → 1 ≤ size e
      → ((n : ℕ) → print n e ≡ wrap (ltb 5 n) ts)
      → ((d : ℕ) → size e ≤ suc d → Reads regexp fuel d 5 ts (value regexp e))
      → Good regexp fuel e
  Good-function e ts one p r =
      let everywhere = wrapped e 5 ts (omega arith) one p r in
      let below : (n : ℕ) → n ≤ 5 → ltb 5 n ≡ false = λ n h. ground arith in
      record {
        reads = everywhere;
        chained = λ d n h bound.
            single e everywhere d n
              (p (suc n)
                ∙ ap (λ b. wrap b ts) (below (suc n) (omega arith) ∙ sym (below n (omega arith)))
                ∙ sym (p n))
              h bound;
      }

  -- An operand in one token, or with `:`.
  pub Good-operand :
      (e : Expr) (ts : Tokens)
      → ((n : ℕ) → print n e ≡ ts)
      → Opens ts
      → ((d : ℕ) → size e ≤ d → Reads regexp fuel d 6 ts (value regexp e))
      → Good regexp fuel e
  Good-operand e ts p o r =
      let everywhere : (d n : ℕ)
          → size e ≤ d
          → n ≤ 6
          → Reads regexp fuel d n (print n e) (value regexp e) =
        λ d n h bound. rw (p n) (Reads-top regexp fuel d n ts (value regexp e) o bound (r d h)) in
      record {
        reads = everywhere;
        chained = λ d n h bound. single e everywhere d n (p (suc n) ∙ sym (p n)) h bound;
      }
