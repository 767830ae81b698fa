-- ===== src/Flags/Steps.antt =====
-- The loop of `ParseFlags` one argument at a time.
use go_posix.Base.{
  ℕ, zero, suc, ◌≤◌, ◌≡◌, refl, ap, Bool, true, false, [], ◌∷◌, Bytes, length, arith, Result, ok,
  err, inl, inr,
}
use go_posix.Flags.{
  Args, ParseResult, Error, CompiledSpec, Parsed, parse_short, parse_long, round, loop, parse_from,
  classify, add_positional, ArgKind, end_of_flags, stdin_marker, operand, long_arg, short_arg,
}
use go_posix.Flags.Total.{Takes, continue, parse_long-Takes, parse_short-Takes}

abbrev Loop : Type 0
Loop = Args → ParseResult → Result Error ParseResult

-- Two loops agree on all argument lists of at most `n` arguments.
abbrev Agree : ℕ → Loop → Loop → Type 0
Agree n f g = (rest : Args) (r : ParseResult) → length rest ≤ n → f rest r ≡ g rest r

continue-cong :
    (rest : Args) (res : ParseResult) (p : Parsed) (f g : Loop)
    → Takes rest res p
    → Agree (length rest) f g
    → continue p f ≡ continue p g
continue-cong rest res (ok (rest', res')) f g (_, inl e) h =
    h rest' res' (omega (arith, ap length e))
continue-cong rest res (ok (rest', res')) f g (_, inr (v, e)) h =
    h rest' res' (omega (arith, ap length e))
continue-cong rest res (err e) f g t h = refl

round-cong :
    (cs : CompiledSpec) (arg : Bytes) (rest : Args) (res : ParseResult) (f g : Loop)
    → Agree (length rest) f g
    → round cs arg rest res f ≡ round cs arg rest res g
unfolding round
round-cong cs arg rest res f g h = go (classify arg) cs.stop_at_first
  where
    by_kind : ArgKind → Bool → Loop → Result Error ParseResult
    by_kind k stop next = elim k [
      | end_of_flags ↦ ok (add_positional rest res)
      | stdin_marker ↦ next rest (add_positional (arg ∷ []) (record res { stdin = true }))
      | operand ↦ elim stop [
        | true ↦ ok (add_positional (arg ∷ rest) res)
        | false ↦ next rest (add_positional (arg ∷ []) res)
      ]
      | long_arg body ↦ continue (parse_long cs body rest res) next
      | short_arg body ↦ continue (parse_short cs body rest res) next
    ]

    go : (k : ArgKind) (stop : Bool) → by_kind k stop f ≡ by_kind k stop g
    go end_of_flags stop = refl
    go stdin_marker stop = h rest _ (omega arith)
    go operand true = refl
    go operand false = h rest _ (omega arith)
    go (long_arg body) stop = continue-cong rest res _ f g (parse_long-Takes cs body rest res) h
    go (short_arg body) stop = continue-cong rest res _ f g (parse_short-Takes cs body rest res) h

loop-fuel :
    (f g : ℕ) (cs : CompiledSpec) (args : Args) (res : ParseResult)
    → length args ≤ f
    → length args ≤ g
    → loop f cs args res ≡ loop g cs args res
unfolding loop
loop-fuel f g cs [] res hf hg = refl
loop-fuel zero g cs (arg ∷ rest) res hf hg = absurd (omega arith)
loop-fuel (suc f) zero cs (arg ∷ rest) res hf hg = absurd (omega arith)
loop-fuel (suc f) (suc g) cs (arg ∷ rest) res hf hg =
    round-cong cs arg rest res (loop f cs) (loop g cs)
      λ rest' r le. loop-fuel f g cs rest' r (omega arith) (omega arith)

-- One round, then the loop from where that round left off.
pub parse_from_step :
    (cs : CompiledSpec) (arg : Bytes) (rest : Args) (res : ParseResult)
    → parse_from cs (arg ∷ rest) res ≡ round cs arg rest res (parse_from cs)
unfolding parse_from loop
parse_from_step cs arg rest res =
    round-cong cs arg rest res (loop (length rest) cs) (parse_from cs)
      λ rest' r le. loop-fuel (length rest) (length rest') cs rest' r le (omega arith)
