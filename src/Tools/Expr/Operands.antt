-- ===== src/Tools/Expr/Operands.antt =====
-- What the parsers of `expr` do at an operand: in parentheses, one token, `:` and the functions.
use go_posix.Base.{
  ℕ, suc, ◌≡◌, ◌∙◌, refl, sym, ap, Bool, false, ◌||◌, [], ◌∷◌, ◌++◌, append_assoc, Bytes, beq,
  codes, arith, length, Result, ok, err, ◌>>=◌,
}
use go_posix.Base.Int64.{pos, format_int}
use go_posix.Tools.Expr.Values.{
  Error, Value, Regexp, match_str, substr_str, index_str, is_or, is_and, is_compare, is_add, is_mul,
}
use go_posix.Tools.Expr.Grammar.{is_reserved}
use go_posix.Tools.Expr.Operators.{is_op, goes_on, Stops, goes_on-weaken}
use go_posix.Tools.Expr.Parsing.{at_level, Reads}
use go_posix.Tools.Expr.{Tokens, Parser, peek, next, done, or_level, unary, close, primary}

-- Tokens that begin with an operand in one token or in parentheses.
pub data Opens : Tokens → Type 0 where
  paren : {ts : Tokens} → Opens (codes "(" ∷ ts)
  plain : {t : Bytes} {ts : Tokens} → is_reserved t ≡ false → Opens (t ∷ ts)

unary-Opens :
    (regexp : Regexp) (p : Parser) (ts rest : Tokens)
    → Opens ts
    → unary regexp p (ts ++ rest) ≡ p (ts ++ rest)
unfolding unary peek is_reserved beq
unary-Opens regexp p _ rest paren = refl
unary-Opens regexp p _ rest (plain h) = ground arith

Opens-Stops : {ts : Tokens} (rest : Tokens) → Opens ts → Stops 6 (ts ++ rest)
unfolding goes_on is_op is_or is_and is_compare is_add is_mul is_reserved beq peek
Opens-Stops rest paren = refl
Opens-Stops rest (plain {t} h) = ground arith

-- The test of `length` on what follows.
ends_here : Tokens → Bool
unfolding peek done
ends_here ts =
    done ts || beq (peek ts) (codes ")") || beq (peek ts) (codes "|") || beq (peek ts) (codes "&")

Opens-ends_here : {ts : Tokens} (rest : Tokens) → Opens ts → ends_here (ts ++ rest) ≡ false
unfolding ends_here is_reserved beq peek done
Opens-ends_here rest paren = refl
Opens-ends_here rest (plain {t} h) = ground arith

three_regroup : (ts us ws rest : Tokens) → (ts ++ us ++ ws) ++ rest ≡ ts ++ (us ++ (ws ++ rest))
three_regroup ts us ws rest = append_assoc (ts ++ us) ws rest ∙ append_assoc ts us (ws ++ rest)

abbrev give : Tokens → Bytes → Result Error (Bytes × Tokens)
give rest x = ok (x, rest)

module _ (regexp : Regexp) (fuel : ℕ) where
  pub Reads-unary :
      (d : ℕ) (ts : Tokens) (v : Value)
      → Opens ts
      → Reads regexp fuel d 6 ts v
      → Reads regexp fuel d 5 ts v
  unfolding at_level
  Reads-unary d ts v o h rest s = unary-Opens regexp _ ts rest o ∙ h rest (goes_on-weaken 5 _ s)

  close-Reads :
      (v : Value) (rest : Tokens)
      → ((v >>= λ x. ok (x, codes ")" ∷ rest)) >>= close) ≡ (v >>= λ x. ok (x, rest))
  unfolding close peek next beq
  close-Reads (ok x) rest = refl
  close-Reads (err e) rest = refl

  pub Reads-group :
      (d : ℕ) (ts : Tokens) (v : Value)
      → Reads regexp fuel d 0 ts v
      → Reads regexp fuel (suc d) 6 (codes "(" ∷ ts ++ codes ")" ∷ []) v
  unfolding at_level primary peek next beq goes_on is_op is_or is_and is_compare is_add is_mul
  Reads-group d ts v h rest s =
      ap (λ all. or_level fuel (unary regexp (primary regexp fuel d)) all >>= close)
        (append_assoc ts (codes ")" ∷ []) rest)
      ∙ rw (h (codes ")" ∷ rest) refl) (close-Reads v rest)

  pub Reads-atom :
      (d : ℕ) (a : Bytes) → is_reserved a ≡ false → Reads regexp fuel (suc d) 6 (a ∷ []) (ok a)
  unfolding at_level primary peek next is_reserved goes_on
  Reads-atom d a h rest s =
      let e1 : beq a (codes "(") ≡ false = ground arith in
      let e2 : beq a [] ≡ false = ground arith in
      let e3 : beq (peek rest) (codes ":") ≡ false = ground arith in rw e1 (rw e2 (rw e3 refl))

  match-bind :
      (str : Bytes) (v : Value) (rest : Tokens)
      → ((v >>= give rest) >>= λ (pat, left). (match_str regexp str pat >>= give left))
        ≡ ((v >>= match_str regexp str) >>= give rest)
  match-bind str (ok x) rest = refl
  match-bind str (err e) rest = refl

  pub Reads-match_at :
      (d : ℕ) (a : Bytes) (ts : Tokens) (v : Value)
      → is_reserved a ≡ false
      → Reads regexp fuel d 6 ts v
      → Reads regexp fuel (suc d) 6 (a ∷ codes ":" ∷ ts) (v >>= match_str regexp a)
  unfolding at_level primary peek next is_reserved beq
  Reads-match_at d a ts v h r rest s =
      let e1 : beq a (codes "(") ≡ false = ground arith in
      let e2 : beq a [] ≡ false = ground arith in
      rw e1 (rw e2 (rw (r rest s) (match-bind a v rest)))

  -- The operands of a function, behind its name.
  abbrev two : ℕ → (Bytes → Bytes → Value) → Parser
  two d f ts = do
    (x, left) ← primary regexp fuel d ts
    (y, left') ← primary regexp fuel d left
    f x y >>= give left'

  abbrev three : ℕ → (Bytes → Bytes → Bytes → Value) → Parser
  three d f ts = do (x, left) ← primary regexp fuel d ts; two d (f x) left

  two-Reads :
      (d : ℕ) (ts us : Tokens) (v w : Value) (f : Bytes → Bytes → Value)
      → Opens us
      → Reads regexp fuel d 6 ts v
      → Reads regexp fuel d 6 us w
      → (rest : Tokens) → Stops 6 rest
      → two d f ((ts ++ us) ++ rest) ≡ ((do x ← v; y ← w; f x y) >>= give rest)
  unfolding at_level
  two-Reads d ts us (ok x) (ok y) f o r q rest s =
      rw (append_assoc ts us rest) (rw (r (us ++ rest) (Opens-Stops rest o)) (rw (q rest s) refl))
  two-Reads d ts us (ok x) (err e) f o r q rest s =
      rw (append_assoc ts us rest) (rw (r (us ++ rest) (Opens-Stops rest o)) (rw (q rest s) refl))
  two-Reads d ts us (err e) w f o r q rest s =
      rw (append_assoc ts us rest) (rw (r (us ++ rest) (Opens-Stops rest o)) refl)

  three-Reads :
      (d : ℕ) (ts us ws : Tokens) (u v w : Value) (f : Bytes → Bytes → Bytes → Value)
      → Opens us
      → Opens ws
      → Reads regexp fuel d 6 ts u
      → Reads regexp fuel d 6 us v
      → Reads regexp fuel d 6 ws w
      → (rest : Tokens) → Stops 6 rest
      → three d f ((ts ++ us ++ ws) ++ rest) ≡ ((do x ← u; y ← v; z ← w; f x y z) >>= give rest)
  unfolding at_level
  three-Reads d ts us ws (ok x) v w f o o' r q t rest s = rw (three_regroup ts us ws rest) (
      rw (r (us ++ (ws ++ rest)) (Opens-Stops _ o))
        (rw (sym (append_assoc us ws rest)) (two-Reads d us ws v w (f x) o' q t rest s)))
  three-Reads d ts us ws (err e) v w f o o' r q t rest s =
      rw (three_regroup ts us ws rest) (rw (r (us ++ (ws ++ rest)) (Opens-Stops _ o)) refl)

  pub Reads-match_of :
      (d : ℕ) (ts us : Tokens) (v w : Value)
      → Opens us
      → Reads regexp fuel d 6 ts v
      → Reads regexp fuel d 6 us w
      → Reads regexp fuel d 5 (codes "match" ∷ ts ++ us) (do x ← v; y ← w; match_str regexp x y)
  unfolding at_level unary peek next beq
  Reads-match_of d ts us v w o r q rest s =
      two-Reads d ts us v w (match_str regexp) o r q rest (goes_on-weaken 5 _ s)

  pub Reads-index_of :
      (d : ℕ) (ts us : Tokens) (v w : Value)
      → Opens us
      → Reads regexp fuel d 6 ts v
      → Reads regexp fuel d 6 us w
      → Reads regexp fuel d 5 (codes "index" ∷ ts ++ us) (do x ← v; y ← w; ok (index_str x y))
  unfolding at_level unary peek next beq
  Reads-index_of d ts us v w o r q rest s =
      two-Reads d ts us v w (λ x y. ok (index_str x y)) o r q rest (goes_on-weaken 5 _ s)

  pub Reads-substr_of :
      (d : ℕ) (ts us ws : Tokens) (u v w : Value)
      → Opens us
      → Opens ws
      → Reads regexp fuel d 6 ts u
      → Reads regexp fuel d 6 us v
      → Reads regexp fuel d 6 ws w
      → Reads regexp fuel d 5
          (codes "substr" ∷ ts ++ us ++ ws)
          (do x ← u; y ← v; z ← w; substr_str x y z)
  unfolding at_level unary peek next beq
  Reads-substr_of d ts us ws u v w o o' r q t rest s =
      three-Reads d ts us ws u v w substr_str o o' r q t rest (goes_on-weaken 5 _ s)

  length-bind :
      (v : Value) (rest : Tokens)
      → ((v >>= give rest) >>= λ (x, left). give left (format_int (pos (length x))))
        ≡ ((do x ← v; ok (format_int (pos (length x)))) >>= give rest)
  length-bind (ok x) rest = refl
  length-bind (err e) rest = refl

  pub Reads-length_of :
      (d : ℕ) (ts : Tokens) (v : Value)
      → Opens ts
      → Reads regexp fuel d 6 ts v
      → Reads regexp fuel d 5 (codes "length" ∷ ts) (do x ← v; ok (format_int (pos (length x))))
  unfolding at_level unary peek next beq ends_here
  Reads-length_of d ts v o r rest s =
      rw (Opens-ends_here rest o) (rw (r rest (goes_on-weaken 5 _ s)) (length-bind v rest))
