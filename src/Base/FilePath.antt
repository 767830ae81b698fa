-- ===== src/Base/FilePath.antt =====
-- Go's path/filepath on Unix, as far as the source uses it: `Clean`, `Join`, `Dir`, `Base`, `IsAbs`
-- and `strings.HasPrefix`, `strings.HasSuffix`.
pub mod Length
use mathlib.Core.Path.{◌≡◌, refl}
use mathlib.Core.Bool.{Bool, true, false, ◌&&◌}
use mathlib.Core.List.{List, [], ◌∷◌, ◌++◌, reverse}
use native.Mathlib.Omega.{arith}
use go_posix.Base.Tests.{◌==◌, if◌then◌else◌}
use go_posix.Base.ByteStrings.{Bytes, codes, beq}

abbrev pub slash : Bytes
slash = codes "/"

-- `strings.HasPrefix(s, p)`
unfoldable pub has_prefix : Bytes → Bytes → Bool
has_prefix s [] = true
has_prefix [] (c ∷ p) = false
has_prefix (b ∷ s) (c ∷ p) = (b == c) && has_prefix s p

-- `strings.HasSuffix(s, p)`
unfoldable pub has_suffix : Bytes → Bytes → Bool
unfolding has_prefix
has_suffix s p = has_prefix (reverse s) (reverse p)

pub has_prefix-append : (s p : Bytes) → has_prefix s p ≡ true → (rest : Bytes) × (s ≡ p ++ rest)
unfolding has_prefix
has_prefix-append s [] h = (s, refl)
has_prefix-append [] (c ∷ p) h = cc
has_prefix-append (b ∷ s) (c ∷ p) h =
    let (rest, e) = has_prefix-append s p (ground arith) in (rest, ground arith)

unfoldable pub is_abs : Bytes → Bool
unfolding has_prefix
is_abs p = has_prefix p slash

-- The parts between the slashes.
unfoldable pub split_slash : Bytes → Bytes → List Bytes
split_slash [] cur = cur ∷ []
split_slash (c ∷ s) cur =
    let next = split_slash s [] in
    let more = split_slash s (cur ++ c ∷ []) in if c == b'/' then cur ∷ next else more

-- One part put on the parts before it, the last one first; `..` at the root of a rooted path goes.
unfoldable pub clean_part : Bool → List Bytes → Bytes → List Bytes
clean_part rooted out part =
    if beq part []
    then out
    else if beq part (codes ".")
    then out
    else if beq part (codes "..")
    then back rooted out
    else part ∷ out
  where
    back : Bool → List Bytes → List Bytes
    back true [] = []
    back false [] = codes ".." ∷ []
    back r (p ∷ out) = if beq p (codes "..") then codes ".." ∷ p ∷ out else out

unfoldable pub clean_parts : Bool → List Bytes → List Bytes → List Bytes
unfolding clean_part
clean_parts rooted out [] = out
clean_parts rooted out (p ∷ ps) = clean_parts rooted (clean_part rooted out p) ps

-- The parts, the last one first, with a slash between them.
unfoldable pub join_parts : List Bytes → Bytes → Bytes
join_parts [] tail = tail
join_parts (p ∷ []) tail = p ++ tail
join_parts (p ∷ q ∷ ps) tail = join_parts (q ∷ ps) (b'/' ∷ (p ++ tail))

-- `filepath.Clean`
unfoldable pub clean : Bytes → Bytes
unfolding is_abs split_slash clean_parts join_parts
clean path =
    let rooted = is_abs path in
    let body = join_parts (clean_parts rooted [] (split_slash path [])) [] in
    if rooted then b'/' ∷ body else if beq body [] then codes "." else body

-- `filepath.Join` of two elements
unfoldable pub join : Bytes → Bytes → Bytes
unfolding clean
join [] [] = []
join [] (c ∷ b) = clean (c ∷ b)
join (c ∷ a) b = clean ((c ∷ a) ++ b'/' ∷ b)

-- Up to the last slash, that one included, and what follows it.
unfoldable pub cut_last : Bytes → Bytes → Bytes → Bytes × Bytes
cut_last [] before cur = (before, cur)
cut_last (c ∷ s) before cur =
    let at = cut_last s (before ++ cur ++ c ∷ []) [] in
    let past = cut_last s before (cur ++ c ∷ []) in if c == b'/' then at else past

-- `filepath.Dir`
unfoldable pub dir : Bytes → Bytes
unfolding clean cut_last
dir p = clean (cut_last p [] []).0

unfoldable pub trim_slashes : Bytes → Bytes
trim_slashes [] = []
trim_slashes (c ∷ s) = let rest = trim_slashes s in if c == b'/' then rest else c ∷ s

-- `filepath.Base`
unfoldable pub base : Bytes → Bytes
unfolding cut_last trim_slashes
base [] = codes "."
base (c ∷ p) =
    let last = (cut_last (reverse (trim_slashes (reverse (c ∷ p)))) [] []).1 in
    if beq last [] then slash else last

clean_example : clean (codes "/a/./b//../c/") ≡ codes "/a/c"
unfolding clean beq
clean_example = refl

clean_above_root : clean (codes "/../x") ≡ codes "/x"
unfolding clean beq
clean_above_root = refl

clean_relative : clean (codes "a/../../b") ≡ codes "../b"
unfolding clean beq
clean_relative = refl

dir_example : dir (codes "/a/b") ≡ codes "/a"
unfolding dir beq
dir_example = refl

base_example : base (codes "/a/b//") ≡ codes "b"
unfolding base beq
base_example = refl
