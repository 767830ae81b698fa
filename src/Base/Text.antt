-- ===== src/Base/Text.antt =====
-- Go's `strings` and `unicode/utf8` on text of runes, as far as the tools use them.
pub mod Split
use Prim.Native.Nat.{ℕ, zero, suc, ◌+◌, ◌/◌, ◌%◌}
use mathlib.Core.Bool.{Bool, ◌&&◌, ◌||◌}
use mathlib.Core.List.{List, [], ◌∷◌, ◌++◌}
use go_posix.Base.Tests.{ltb, leb, ◌==◌, if◌then◌else◌}
use go_posix.Base.Lists.{length}
use go_posix.Base.ByteStrings.{Bytes, beq}
use go_posix.Base.FilePath.{has_prefix}

-- The bytes of a rune.
unfoldable pub utf8 : ℕ → Bytes
utf8 r =
    if ltb r 0x80
    then r ∷ []
    else if ltb r 0x800
    then (0xC0 + r / 64) ∷ (0x80 + r % 64) ∷ []
    else if ltb r 0x10000
    then (0xE0 + r / 4096) ∷ (0x80 + r / 64 % 64) ∷ (0x80 + r % 64) ∷ []
    else (0xF0 + r / 262144) ∷ (0x80 + r / 4096 % 64) ∷ (0x80 + r / 64 % 64) ∷ (0x80 + r % 64) ∷ []

unfoldable pub encode : Bytes → Bytes
unfolding utf8
encode [] = []
encode (r ∷ rs) = utf8 r ++ encode rs

-- The length of a separator behind its first rune.
abbrev pub rest_length : Bytes → ℕ
rest_length [] = 0
rest_length (c ∷ sep) = length sep

-- `strings.Split(s, sep)` as its first part and the others; `skip` runes of `s` belong to a separator
-- that has begun.
unfoldable pub split_go : Bytes → ℕ → Bytes → Bytes × List Bytes
split_go sep skip [] = ([], [])
split_go sep (suc skip) (c ∷ s) = split_go sep skip s
split_go sep zero (c ∷ s) =
    let next = split_go sep (rest_length sep) s in
    let more = split_go sep zero s in
    if has_prefix (c ∷ s) sep then ([], next.0 ∷ next.1) else (c ∷ more.0, more.1)

unfoldable pub split : Bytes → Bytes → List Bytes
unfolding split_go
split s sep = let (part, parts) = split_go sep 0 s in part ∷ parts

-- `strings.Contains(s, sep)`
unfoldable pub contains : Bytes → Bytes → Bool
contains [] sep = beq sep []
contains (c ∷ s) sep = has_prefix (c ∷ s) sep || contains s sep

-- `strings.Join(parts, sep)`
unfoldable pub join_tail : List Bytes → Bytes → Bytes
join_tail [] sep = []
join_tail (p ∷ ps) sep = sep ++ (p ++ join_tail ps sep)

unfoldable pub join : List Bytes → Bytes → Bytes
unfolding join_tail
join [] sep = []
join (p ∷ ps) sep = p ++ join_tail ps sep

-- `unicode.IsSpace`
unfoldable pub is_space : ℕ → Bool
is_space r =
    (leb 9 r && leb r 13)
    || r == 32
    || r == 0x85
    || r == 0xA0
    || r == 0x1680
    || (leb 0x2000 r && leb r 0x200A)
    || r == 0x2028
    || r == 0x2029
    || r == 0x202F
    || r == 0x205F
    || r == 0x3000

-- `strings.Fields(s)`, with the part before `s` that is not closed yet.
unfoldable pub fields_of : Bytes → Bytes → List Bytes
unfolding is_space
fields_of cur [] = if beq cur [] then [] else cur ∷ []
fields_of cur (c ∷ s) =
    let closed = fields_of [] s in
    let more = fields_of (cur ++ c ∷ []) s in
    if is_space c then (if beq cur [] then closed else cur ∷ closed) else more
