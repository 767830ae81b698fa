-- ===== src/Base/Runes.antt =====
-- `unicode/utf8` on strings of bytes, as `range` over a string uses it.
use Prim.Native.Nat.{ℕ, zero, suc, ◌+◌, ◌-◌, ◌*◌}
use mathlib.Core.Bool.{Bool, false, ◌&&◌, ◌||◌}
use mathlib.Core.List.{[], ◌∷◌}
use go_posix.Base.Tests.{ltb, leb, ◌==◌, if◌then◌else◌}
use go_posix.Base.ByteStrings.{Bytes}
use go_posix.Base.Text.{utf8, contains}

abbrev between : ℕ → ℕ → ℕ → Bool
between lo hi b = leb lo b && leb b hi

-- What stands for a byte that begins no rune.
abbrev rune_error : ℕ
rune_error = 0xFFFD

-- The second byte that may follow the first.
follows : ℕ → ℕ → Bool
follows a b =
    if a == 0xE0
    then between 0xA0 0xBF b
    else if a == 0xED
    then between 0x80 0x9F b
    else if a == 0xF0
    then between 0x90 0xBF b
    else if a == 0xF4
    then between 0x80 0x8F b
    else between 0x80 0xBF b

-- `utf8.DecodeRuneInString`: the rune at the front, and the number of its bytes.
pub decode_rune : Bytes → ℕ × ℕ
unfolding follows
decode_rune [] = (rune_error, 0)
decode_rune (a ∷ []) = if ltb a 0x80 then (a, 1) else (rune_error, 1)
decode_rune (a ∷ b ∷ []) =
    if ltb a 0x80
    then (a, 1)
    else if between 0xC2 0xDF a && follows a b
    then ((a - 0xC0) * 64 + (b - 0x80), 2)
    else (rune_error, 1)
decode_rune (a ∷ b ∷ c ∷ []) =
    if ltb a 0x80
    then (a, 1)
    else if between 0xC2 0xDF a && follows a b
    then ((a - 0xC0) * 64 + (b - 0x80), 2)
    else if between 0xE0 0xEF a && follows a b && between 0x80 0xBF c
    then ((a - 0xE0) * 4096 + (b - 0x80) * 64 + (c - 0x80), 3)
    else (rune_error, 1)
decode_rune (a ∷ b ∷ c ∷ d ∷ s) =
    if ltb a 0x80
    then (a, 1)
    else if between 0xC2 0xDF a && follows a b
    then ((a - 0xC0) * 64 + (b - 0x80), 2)
    else if between 0xE0 0xEF a && follows a b && between 0x80 0xBF c
    then ((a - 0xE0) * 4096 + (b - 0x80) * 64 + (c - 0x80), 3)
    else if between 0xF0 0xF4 a && follows a b && between 0x80 0xBF c && between 0x80 0xBF d
    then ((a - 0xF0) * 262144 + (b - 0x80) * 4096 + (c - 0x80) * 64 + (d - 0x80), 4)
    else (rune_error, 1)

-- Whether `range` over the string comes to the rune; `skip` bytes belong to the rune before.
ranges_over : ℕ → ℕ → Bytes → Bool
unfolding decode_rune
ranges_over r skip [] = false
ranges_over r (suc skip) (c ∷ s) = ranges_over r skip s
ranges_over r zero (c ∷ s) =
    let (q, size) = decode_rune (c ∷ s) in let more = ranges_over r (size - 1) s in q == r || more

-- `strings.ContainsRune(s, r)`, for a rune that `range` gives.
pub contains_rune : Bytes → ℕ → Bool
unfolding ranges_over
contains_rune s r = if r == rune_error then ranges_over r 0 s else contains s (utf8 r)
