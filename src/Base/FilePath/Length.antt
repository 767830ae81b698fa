-- ===== src/Base/FilePath/Length.antt =====
-- The lengths of what `filepath.Clean` and `filepath.Dir` return.
use Prim.Native.Nat.{ℕ, ◌+◌, ◌≤◌, ◌<◌}
use mathlib.Core.Path.{◌≡◌, refl, ap, ◌∙◌}
use mathlib.Core.Logic.{◌⊎◌, inl, inr}
use mathlib.Core.Bool.{Bool, true, false}
use mathlib.Core.List.{List, [], ◌∷◌, ◌++◌, append_assoc}
use native.Mathlib.Omega.{arith}
use go_posix.Base.Tests.{◌==◌, Bool-cases}
use go_posix.Base.Lists.{length, length-append}
use go_posix.Base.ByteStrings.{Bytes, beq, beq→eq, codes}
use go_posix.Base.FilePath.{
  is_abs, split_slash, clean_part, clean_parts, join_parts, clean, cut_last, dir, has_prefix,
}

-- The length of the parts, each with a separator.
size : List Bytes → ℕ
size [] = 0
size (p ∷ ps) = length p + 1 + size ps

length-dots : (p : Bytes) → beq p (codes "..") ≡ true → length p ≡ 2
length-dots p h = ap length (beq→eq p (codes "..") h)

size-clean_part :
    (r : Bool) (out : List Bytes) (p : Bytes) → size (clean_part r out p) ≤ size out + length p + 1
unfolding size clean_part
size-clean_part true [] p = ground (arith, length-dots p)
size-clean_part false [] p = ground (arith, length-dots p)
size-clean_part true (q ∷ out) p = ground (arith, length-dots p, length-dots q)
size-clean_part false (q ∷ out) p = ground (arith, length-dots p, length-dots q)

-- A separator at the end adds nothing.
size-clean_parts :
    (r : Bool) (out : List Bytes) (cur t : Bytes)
    → size (clean_parts r out (split_slash (t ++ b'/' ∷ []) cur))
      ≤ size out + length cur + length t + 1
unfolding clean_parts split_slash size beq clean_part
size-clean_parts r out cur [] = omega (arith, size-clean_part r out cur)
size-clean_parts r out cur (c ∷ t) = elim (Bool-cases (c == b'/')) [
  | inl e ↦
      rw e
        (omega (arith, size-clean_part r out cur, size-clean_parts r (clean_part r out cur) [] t))
  | inr e ↦
      let len = length-append cur (c ∷ []) in
      rw e (omega (arith, len, size-clean_parts r out (cur ++ c ∷ []) t))
]

length-join_parts :
    (p : Bytes) (ps : List Bytes) (tail : Bytes)
    → length (join_parts (p ∷ ps) tail) + 1 ≡ size (p ∷ ps) + length tail
unfolding join_parts size
length-join_parts p [] tail = omega (arith, length-append p tail)
length-join_parts p (q ∷ ps) tail =
    omega (arith, length-join_parts q ps (b'/' ∷ (p ++ tail)), length-append p tail)

length-body : (ps : List Bytes) (n : ℕ) → size ps ≤ n + 1 → length (join_parts ps []) ≤ n
unfolding size join_parts
length-body [] n h = omega arith
length-body (p ∷ ps) n h = omega (arith, length-join_parts p ps [])

-- What is up to the last separator.
cut_last-cases :
    (s before cur : Bytes)
    → ((cut_last s before cur).0 ≡ before)
      ⊎ ((u : Bytes) × ((cut_last s before cur).0 ≡ before ++ (u ++ b'/' ∷ []))
          × (length u + 1 ≤ length cur + length s))
unfolding cut_last
cut_last-cases [] before cur = inl refl
cut_last-cases (c ∷ s) before cur = elim (Bool-cases (c == b'/')) [
  | inl e ↦
      let ec : c ≡ b'/' = ground arith in
      elim (cut_last-cases s (before ++ cur ++ c ∷ []) []) [
        | inl p ↦ inr (cur, rw e (p ∙ rw ec (simp append_assoc refl)), omega arith)
        | inr (u, p, l) ↦ inr (
          cur ++ c ∷ u,
          rw e (p ∙ simp append_assoc refl),
          omega (arith, length-append cur (c ∷ u)),
        )
      ]
  | inr e ↦ elim (cut_last-cases s before (cur ++ c ∷ [])) [
    | inl p ↦ inl (rw e p)
    | inr (u, p, l) ↦ inr (u, rw e p, omega (arith, length-append cur (c ∷ [])))
  ]
]

-- `Clean` of an absolute path, without its first separator.
clean_body : Bytes → Bytes
clean_body s = join_parts (clean_parts true [] (split_slash s [])) []

pub clean-absolute : (s : Bytes) → (body : Bytes) × (clean (b'/' ∷ s) ≡ b'/' ∷ body)
unfolding clean beq clean_body is_abs has_prefix split_slash clean_parts clean_part
clean-absolute s = (clean_body s, refl)

length-clean_body : (u : Bytes) → length (clean_body (u ++ b'/' ∷ [])) ≤ length u
unfolding clean_body size
length-clean_body u =
    length-body (clean_parts true [] (split_slash (u ++ b'/' ∷ []) [])) (length u)
      (omega (arith, size-clean_parts true [] [] u))

clean_root : clean (b'/' ∷ []) ≡ b'/' ∷ []
unfolding clean beq is_abs has_prefix split_slash clean_parts clean_part join_parts
clean_root = refl

-- The directory of an absolute path is absolute, and it is the root or shorter than the path.
pub dir-shrinks :
    (s : Bytes)
    → (body : Bytes) × (dir (b'/' ∷ s) ≡ b'/' ∷ body) × ((body ≡ []) ⊎ (length body < length s))
unfolding dir cut_last clean-absolute
dir-shrinks s = elim (cut_last-cases s (b'/' ∷ []) []) [
  | inl p ↦ ([], ap clean p ∙ clean_root, inl refl)
  | inr (u, p, l) ↦ (
    clean_body (u ++ b'/' ∷ []),
    ap clean p ∙ (clean-absolute (u ++ b'/' ∷ [])).1,
    inr (omega (arith, length-clean_body u)),
  )
]
