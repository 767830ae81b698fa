-- ===== src/Tools/Patch/Written.antt =====
-- The text of a file that `Run` of `patch` writes.
use go_posix.Base.{
  ℕ, zero, append_assoc, ◌≡◌, ◌∙◌, refl, sym, ap, Bool, true, false, List, [], ◌∷◌, ◌++◌,
  append-nil, Bytes, codes, ◌==◌, if◌then◌else◌, Bool-cases, inl, inr,
}
use go_posix.Base.FilePath.{has_prefix}
use go_posix.Base.Text.{split, split_go, join, join_tail}
use go_posix.Base.Text.Split.{join-split}
use go_posix.Tools.Patch.Run.{ends_newline, drop_last, file_lines, output}

-- The last of the parts is empty.
data EndsEmpty : List Bytes → Type 0 where
  last_part : EndsEmpty ([] ∷ [])
  part_before :
      {p q : Bytes} {parts : List Bytes} → EndsEmpty (q ∷ parts) → EndsEmpty (p ∷ q ∷ parts)

EndsEmpty-cons : (p : Bytes) (parts : List Bytes) → EndsEmpty parts → EndsEmpty (p ∷ parts)
EndsEmpty-cons p _ last_part = part_before last_part
EndsEmpty-cons p _ (part_before h) = part_before (part_before h)

-- The parts of a text with one byte more in front.
abbrev parts_cons : Bool → ℕ → Bytes × List Bytes → Bytes × List Bytes
parts_cons b c parts = if b then ([], parts.0 ∷ parts.1) else (c ∷ parts.0, parts.1)

split_go-newline :
    (c : ℕ) (s : Bytes)
    → split_go (codes "\n") zero (c ∷ s) ≡ parts_cons (c == b'\n') c (split_go (codes "\n") zero s)
unfolding split_go has_prefix
split_go-newline c s = elim (Bool-cases (c == b'\n')) [ inl e ↦ rw e refl | inr e ↦ rw e refl ]

EndsEmpty-parts_cons :
    (b : Bool) (c : ℕ) (parts : Bytes × List Bytes)
    → EndsEmpty parts.1
    → EndsEmpty (parts_cons b c parts).1
EndsEmpty-parts_cons true c parts h = EndsEmpty-cons parts.0 parts.1 h
EndsEmpty-parts_cons false c parts h = h

one :
    (c : ℕ)
    → (c == b'\n') ≡ true
    → EndsEmpty (parts_cons (c == b'\n') c (split_go (codes "\n") zero [])).1
unfolding split_go
one c h = rw h last_part

split_go-EndsEmpty :
    (s : Bytes) → ends_newline s ≡ true → EndsEmpty (split_go (codes "\n") zero s).1
unfolding ends_newline
split_go-EndsEmpty [] h = cc
split_go-EndsEmpty (c ∷ []) h = rw (split_go-newline c []) (one c h)
split_go-EndsEmpty (c ∷ d ∷ s) h = rw (split_go-newline c (d ∷ s)) (
    EndsEmpty-parts_cons (c == b'\n') c (split_go (codes "\n") zero (d ∷ s))
      (split_go-EndsEmpty (d ∷ s) h))

join_tail-drop_last :
    (sep : Bytes) (parts : List Bytes)
    → EndsEmpty parts
    → join_tail (drop_last parts) sep ++ sep ≡ join_tail parts sep
unfolding join_tail drop_last
join_tail-drop_last sep _ last_part = sym (append-nil sep)
join_tail-drop_last sep _ (part_before {p} {q} {parts} h) =
    append_assoc sep (p ++ join_tail (drop_last (q ∷ parts)) sep) sep
    ∙ ap (λ t. sep ++ t)
        (append_assoc p (join_tail (drop_last (q ∷ parts)) sep) sep
          ∙ ap (λ t. p ++ t) (join_tail-drop_last sep (q ∷ parts) h))

join-drop_last :
    (sep p : Bytes) (parts : List Bytes)
    → EndsEmpty parts
    → join (drop_last (p ∷ parts)) sep ++ sep ≡ join (p ∷ parts) sep
unfolding join drop_last
join-drop_last sep p _ last_part =
    append_assoc p [] sep ∙ ap (λ t. p ++ t) (join_tail-drop_last sep ([] ∷ []) last_part)
join-drop_last sep p _ (part_before {q = q} {parts = parts} h) =
    append_assoc p _ sep ∙ ap (λ t. p ++ t) (join_tail-drop_last sep _ (part_before h))

-- When no line has changed, the text that is written is the one that was read, with its newline at the
-- end or without.
output-file_lines : (original : Bytes) → output false original (file_lines original) ≡ original
unfolding output file_lines split
output-file_lines original = elim (Bool-cases (ends_newline original)) [
  | inl e ↦ rw e (
      join-drop_last (codes "\n") _ _ (split_go-EndsEmpty original e)
      ∙ join-split original (codes "\n") (λ e'. cc))
  | inr e ↦ rw e (append-nil _ ∙ join-split original (codes "\n") (λ e'. cc))
]
