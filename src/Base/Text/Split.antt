-- ===== src/Base/Text/Split.antt =====
-- `strings.Split` and `strings.Join`.
use Prim.Native.Nat.{ℕ, zero, suc}
use mathlib.Core.Path.{◌≡◌, refl, sym, ap, ◌∙◌}
use mathlib.Core.Logic.{◌≢◌, inl, inr}
use mathlib.Core.List.{List, [], ◌∷◌, ◌++◌}
use native.Mathlib.Omega.{arith}
use go_posix.Base.Tests.{Bool-cases}
use go_posix.Base.Lists.{length, drop}
use go_posix.Base.ByteStrings.{Bytes}
use go_posix.Base.FilePath.{has_prefix, has_prefix-append}
use go_posix.Base.Text.{split, split_go, join, join_tail}

drop-append {ℓ} : {A : Type ℓ} (xs ys : List A) → drop (length xs) (xs ++ ys) ≡ ys
drop-append [] ys = refl
drop-append (x ∷ xs) ys = drop-append xs ys

tail_eq : (c b : ℕ) (s bs rest : Bytes) → c ∷ s ≡ b ∷ (bs ++ rest) → drop (length bs) s ≡ rest
tail_eq c b s bs rest e =
    let same : s ≡ bs ++ rest = ground arith in
    ap (λ xs. drop (length bs) xs) same ∙ drop-append bs rest

-- Behind a separator that has begun with `skip` runes to come.
join_tail-split_go :
    (b : ℕ) (bs : Bytes) (skip : ℕ) (s : Bytes)
    → (split_go (b ∷ bs) skip s).0 ++ join_tail (split_go (b ∷ bs) skip s).1 (b ∷ bs) ≡ drop skip s
unfolding split_go join_tail
join_tail-split_go b bs zero [] = refl
join_tail-split_go b bs (suc skip) [] = refl
join_tail-split_go b bs (suc skip) (c ∷ s) = join_tail-split_go b bs skip s
join_tail-split_go b bs zero (c ∷ s) = elim (Bool-cases (has_prefix (c ∷ s) (b ∷ bs))) [
  | inl e ↦
      let (rest, whole) = has_prefix-append (c ∷ s) (b ∷ bs) e in
      rw e (
        ap (λ xs. b ∷ (bs ++ xs))
          (join_tail-split_go b bs (length bs) s ∙ tail_eq c b s bs rest whole)
        ∙ sym whole)
  | inr e ↦ rw e (ap (λ xs. c ∷ xs) (join_tail-split_go b bs zero s))
]

pub join-split : (s sep : Bytes) → sep ≢ [] → join (split s sep) sep ≡ s
unfolding join split
join-split s [] h = absurd (h refl)
join-split s (b ∷ bs) h = join_tail-split_go b bs 0 s
