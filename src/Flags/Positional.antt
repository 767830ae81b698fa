-- ===== src/Flags/Positional.antt =====
-- The operands that `ParseFlags` leaves.
use go_posix.Base.{
  ℕ, zero, suc, ◌≤◌, ◌≡◌, refl, sym, ap, ◌∙◌, subst, subst⁻¹, Bool, true, false, [], ◌∷◌, ◌++◌,
  append-nil, append_assoc, Bytes, beq, length, arith, Result, ok, err, inl, inr, All, codes,
}
use go_posix.Flags.{
  Args, ParseResult, Error, FlagSpec, CompiledSpec, Parsed, parse_short, parse_long, round, loop,
  parse_from, pre_process_args, parse_flags, compile, new_parse_result, classify, add_positional,
  ArgKind, end_of_flags, stdin_marker, operand, long_arg, short_arg,
}
use go_posix.Flags.Total.{Takes, continue, parse_long-Takes, parse_short-Takes}
use go_posix.Flags.Steps.{parse_from_step}

-- The first list comes from the second by leaving out elements.
pub data IsSubseq : Args → Args → Type 0 where
  done : IsSubseq [] []
  keep : {x : Bytes} {xs ys : Args} → IsSubseq xs ys → IsSubseq (x ∷ xs) (x ∷ ys)
  skip : {x : Bytes} {xs ys : Args} → IsSubseq xs ys → IsSubseq xs (x ∷ ys)

IsSubseq-refl : (xs : Args) → IsSubseq xs xs
IsSubseq-refl [] = done
IsSubseq-refl (x ∷ xs) = keep (IsSubseq-refl xs)

IsSubseq-nil : (xs : Args) → IsSubseq [] xs
IsSubseq-nil [] = done
IsSubseq-nil (x ∷ xs) = skip (IsSubseq-nil xs)

-- The run adds to the operands of `res` some of the arguments `args`, in their order.
abbrev Adds : Args → ParseResult → Result Error ParseResult → Type 0
Adds args res (ok r) = (ys : Args) × (r.positional ≡ res.positional ++ ys) × IsSubseq ys args
Adds args res (err e) = Unit

abbrev AddsFrom : Args → (Args → ParseResult → Result Error ParseResult) → Type 0
AddsFrom rest next =
    (rest' : Args) (r : ParseResult) → length rest' ≤ length rest → Adds rest' r (next rest' r)

Adds-skip :
    (v : Bytes) (args : Args) (res : ParseResult) (p : Result Error ParseResult)
    → Adds args res p
    → Adds (v ∷ args) res p
Adds-skip v args res (ok r) (ys, e, s) = (ys, e, skip s)
Adds-skip v args res (err x) h = tt

Adds-state :
    (args : Args) (res res' : ParseResult) (p : Result Error ParseResult)
    → res'.positional ≡ res.positional
    → Adds args res' p
    → Adds args res p
Adds-state args res res' (ok r) e (ys, f, s) = (ys, f ∙ ap (λ (l : Args). l ++ ys) e, s)
Adds-state args res res' (err x) e h = tt

Adds-keep :
    (arg : Bytes) (args : Args) (res res' : ParseResult) (p : Result Error ParseResult)
    → res'.positional ≡ res.positional ++ arg ∷ []
    → Adds args res' p
    → Adds (arg ∷ args) res p
Adds-keep arg args res res' (ok r) e (ys, f, s) =
    (arg ∷ ys, f ∙ ap (λ (l : Args). l ++ ys) e ∙ append_assoc res.positional (arg ∷ []) ys, keep s)
Adds-keep arg args res res' (err x) e h = tt

continue-Adds :
    (rest : Args) (res : ParseResult) (p : Parsed)
    (next : Args → ParseResult → Result Error ParseResult)
    → Takes rest res p
    → AddsFrom rest next
    → Adds rest res (continue p next)
continue-Adds rest res (ok (rest', res')) next (same, inl e) h =
    Adds-state rest res res' (next rest' res') same (
      subst (λ (l : Args). Adds l res' (next rest' res')) e
        (h rest' res' (omega (arith, ap length e))))
continue-Adds rest res (ok (rest', res')) next (same, inr (v, e)) h =
    Adds-state rest res res' (next rest' res') same (
      subst⁻¹ (λ (l : Args). Adds l res' (next rest' res')) e
        (Adds-skip v rest' res' (next rest' res') (h rest' res' (omega (arith, ap length e)))))
continue-Adds rest res (err x) next t h = tt

round-Adds :
    (cs : CompiledSpec) (arg : Bytes) (rest : Args) (res : ParseResult)
    (next : Args → ParseResult → Result Error ParseResult)
    → AddsFrom rest next
    → Adds (arg ∷ rest) res (round cs arg rest res next)
unfolding round
round-Adds cs arg rest res next h = go (classify arg) cs.stop_at_first
  where
    go :
        (k : ArgKind) (stop : Bool)
        → Adds (arg ∷ rest) res (elim k [
          | end_of_flags ↦ ok (add_positional rest res)
          | stdin_marker ↦ next rest (add_positional (arg ∷ []) (record res { stdin = true }))
          | operand ↦ elim stop [
            | true ↦ ok (add_positional (arg ∷ rest) res)
            | false ↦ next rest (add_positional (arg ∷ []) res)
          ]
          | long_arg body ↦ continue (parse_long cs body rest res) next
          | short_arg body ↦ continue (parse_short cs body rest res) next
        ])
    go end_of_flags stop = (rest, refl, skip (IsSubseq-refl rest))
    go stdin_marker stop =
        Adds-keep arg rest res (add_positional (arg ∷ []) (record res { stdin = true })) _ refl
          (h rest _ (omega arith))
    go operand true = (arg ∷ rest, refl, IsSubseq-refl (arg ∷ rest))
    go operand false =
        Adds-keep arg rest res (add_positional (arg ∷ []) res) _ refl (h rest _ (omega arith))
    go (long_arg body) stop =
        Adds-skip arg rest res _
          (continue-Adds rest res _ next (parse_long-Takes cs body rest res) h)
    go (short_arg body) stop =
        Adds-skip arg rest res _
          (continue-Adds rest res _ next (parse_short-Takes cs body rest res) h)

loop-Adds :
    (fuel : ℕ) (cs : CompiledSpec) (args : Args) (res : ParseResult)
    → length args ≤ fuel
    → Adds args res (loop fuel cs args res)
unfolding loop
loop-Adds fuel cs [] res h = ([], sym (append-nil res.positional), done)
loop-Adds zero cs (arg ∷ rest) res h = tt
loop-Adds (suc fuel) cs (arg ∷ rest) res h =
    round-Adds cs arg rest res (loop fuel cs) λ rest' r le. loop-Adds fuel cs rest' r (omega arith)

positional_of : Result Error ParseResult → Args
positional_of (ok r) = r.positional
positional_of (err x) = []

parse_flags-ok :
    (args rewritten : Args) (spec : FlagSpec)
    → pre_process_args spec.pre_process args ≡ ok rewritten
    → parse_flags args spec ≡ parse_from (compile spec) rewritten new_parse_result
unfolding parse_flags compile
parse_flags-ok args rewritten spec h = rw h

Adds→IsSubseq :
    (args : Args) (p : Result Error ParseResult) (r : ParseResult)
    → p ≡ ok r
    → Adds args new_parse_result p
    → IsSubseq r.positional args
unfolding new_parse_result positional_of
Adds→IsSubseq args (ok r') r e (ys, f, s) =
    subst (λ (l : Args). IsSubseq l args) (sym f ∙ ap positional_of e) s
Adds→IsSubseq args (err x) r e h = cc

-- Where PreProcess, if there is one, leaves these arguments and ParseFlags a result, the operands of the
-- result are a subsequence of the arguments that PreProcess leaves (without it, of those of the command
-- line): none is invented, repeated or moved.
pub parse_flags-IsSubseq :
    (args rewritten : Args) (spec : FlagSpec) (r : ParseResult)
    → pre_process_args spec.pre_process args ≡ ok rewritten
    → parse_flags args spec ≡ ok r
    → IsSubseq r.positional rewritten
unfolding parse_from
parse_flags-IsSubseq args rewritten spec r pre h =
    Adds→IsSubseq rewritten _ r (sym (parse_flags-ok args rewritten spec pre) ∙ h)
      (loop-Adds (length rewritten) (compile spec) rewritten new_parse_result (omega arith))

-- An argument that is no flag: it is empty, or one byte that is no dash, or begins with another byte.
abbrev IsOperand : Bytes → Type 0
IsOperand a = classify a ≡ operand

operand_round :
    (cs : CompiledSpec) (a : Bytes) (rest : Args) (res : ParseResult)
    (next : Args → ParseResult → Result Error ParseResult)
    → cs.stop_at_first ≡ false
    → IsOperand a
    → round cs a rest res next ≡ next rest (add_positional (a ∷ []) res)
unfolding round
operand_round cs a rest res next stop h = rw (h, round) (rw (stop, round))

dashes_round :
    (cs : CompiledSpec) (rest : Args) (res : ParseResult)
    (next : Args → ParseResult → Result Error ParseResult)
    → round cs (codes "--") rest res next ≡ ok (add_positional rest res)
unfolding round beq classify
dashes_round cs rest res next = refl

parse_from-operand :
    (cs : CompiledSpec) (a : Bytes) (rest : Args) (res : ParseResult)
    → cs.stop_at_first ≡ false
    → IsOperand a
    → parse_from cs (a ∷ rest) res ≡ parse_from cs rest (add_positional (a ∷ []) res)
parse_from-operand cs a rest res stop h =
    parse_from_step cs a rest res ∙ operand_round cs a rest res (parse_from cs) stop h

-- From any state, operands up to a `--` are kept, and what follows `--` is kept whole, flags too.
pub parse_from-operands :
    (cs : CompiledSpec) (ops rest : Args) (res : ParseResult)
    → cs.stop_at_first ≡ false
    → All IsOperand ops
    → parse_from cs (ops ++ codes "--" ∷ rest) res ≡ ok (add_positional (ops ++ rest) res)
unfolding add_positional
parse_from-operands cs [] rest res stop h =
    parse_from_step cs (codes "--") rest res ∙ dashes_round cs rest res (parse_from cs)
parse_from-operands cs (a ∷ ops) rest res stop (ha, h) =
    parse_from-operand cs a (ops ++ codes "--" ∷ rest) res stop ha
    ∙ parse_from-operands cs ops rest (add_positional (a ∷ []) res) stop h
    ∙ ap (λ (l : Args). ok (record res { positional = l }))
        (append_assoc res.positional (a ∷ []) (ops ++ rest))

stop_round :
    (cs : CompiledSpec) (a : Bytes) (rest : Args) (res : ParseResult)
    (next : Args → ParseResult → Result Error ParseResult)
    → cs.stop_at_first ≡ true
    → IsOperand a
    → round cs a rest res next ≡ ok (add_positional (a ∷ rest) res)
unfolding round
stop_round cs a rest res next stop h = rw (h, round) (rw (stop, round))

-- With `StopAtFirstNonFlag`, the first operand and all that follows it are kept whole.
parse_from-stop :
    (cs : CompiledSpec) (a : Bytes) (rest : Args) (res : ParseResult)
    → cs.stop_at_first ≡ true
    → IsOperand a
    → parse_from cs (a ∷ rest) res ≡ ok (add_positional (a ∷ rest) res)
parse_from-stop cs a rest res stop h =
    parse_from_step cs a rest res ∙ stop_round cs a rest res (parse_from cs) stop h
