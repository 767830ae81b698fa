-- ===== src/Base/Int64.antt =====
-- Go's int64 and `strconv` on it: integers between -2^63 and 2^63, whose arithmetic wraps around.
use Prim.Native.Nat.{ℕ, zero, suc, ◌+◌, ◌-◌, ◌*◌, ◌/◌, ◌%◌, ◌^◌}
use mathlib.Core.Bool.{Bool, true, false, ◌&&◌}
use mathlib.Core.Option.{Option, none, some}
use mathlib.Core.List.{[], ◌∷◌}
use go_posix.Base.Tests.{ltb, leb, ◌==◌, if◌then◌else◌}
use go_posix.Base.ByteStrings.{Bytes}

-- `negsuc n` is -(n + 1).
pub data ℤ : Type 0 where
  pos : ℕ → ℤ
  negsuc : ℕ → ℤ

-- The word of 64 bits that stands for an integer, and back.
unfoldable pub word : ℤ → ℕ
word (pos n) = n % 2 ^ 64
word (negsuc n) = 2 ^ 64 - 1 - n % 2 ^ 64

unfoldable pub int64 : ℕ → ℤ
int64 w = if ltb w (2 ^ 63) then pos w else negsuc (2 ^ 64 - 1 - w)

-- `a + b`, `a - b` and `a * b`
unfoldable pub add : ℤ → ℤ → ℤ
unfolding word int64
add a b = int64 ((word a + word b) % 2 ^ 64)

unfoldable pub sub : ℤ → ℤ → ℤ
unfolding word int64
sub a b = int64 ((word a + (2 ^ 64 - word b)) % 2 ^ 64)

unfoldable pub mul : ℤ → ℤ → ℤ
unfolding word int64
mul a b = int64 (word a * word b % 2 ^ 64)

unfoldable magnitude : ℤ → ℕ
magnitude (pos n) = n
magnitude (negsuc n) = suc n

unfoldable is_negative : ℤ → Bool
is_negative (pos n) = false
is_negative (negsuc n) = true

-- `n`, or -n, wrapped around.
unfoldable signed : Bool → ℕ → ℤ
unfolding int64
signed negative n = int64 (if negative then (2 ^ 64 - n % 2 ^ 64) % 2 ^ 64 else n % 2 ^ 64)

unfoldable xor : Bool → Bool → Bool
xor true false = true
xor false true = true
xor a b = false

-- `a / b` and `a % b`, which round to zero; `b` is not 0.
unfoldable pub quo : ℤ → ℤ → ℤ
unfolding signed magnitude is_negative xor
quo a b = signed (xor (is_negative a) (is_negative b)) (magnitude a / magnitude b)

unfoldable pub rem : ℤ → ℤ → ℤ
unfolding signed magnitude is_negative
rem a b = signed (is_negative a) (magnitude a % magnitude b)

-- `==` and `<`
unfoldable pub eq_int : ℤ → ℤ → Bool
eq_int (pos a) (pos b) = a == b
eq_int (negsuc a) (negsuc b) = a == b
eq_int a b = false

unfoldable pub lt_int : ℤ → ℤ → Bool
lt_int (pos a) (pos b) = ltb a b
lt_int (pos a) (negsuc b) = false
lt_int (negsuc a) (pos b) = true
lt_int (negsuc a) (negsuc b) = ltb b a

-- The digits of a text in front of which `n` has been read.
unfoldable pub digits : ℕ → Bytes → Option ℕ
digits n [] = some n
digits n (c ∷ s) =
    let rest = digits (n * 10 + (c - b'0')) s in if leb b'0' c && leb c b'9' then rest else none

unfoldable pub magnitude_of : Bytes → Option ℕ
unfolding digits
magnitude_of [] = none
magnitude_of (c ∷ s) = digits 0 (c ∷ s)

-- The range check of `ParseInt`.
unfoldable pub in_range : Bool → Option ℕ → Option ℤ
in_range negative none = none
in_range false (some n) = if ltb n (2 ^ 63) then some (pos n) else none
in_range true (some zero) = some (pos 0)
in_range true (some (suc n)) = if ltb n (2 ^ 63) then some (negsuc n) else none

-- `strconv.ParseInt(s, 10, 64)`, `none` for an error
unfoldable pub parse_int : Bytes → Option ℤ
unfolding magnitude_of in_range
parse_int [] = none
parse_int (c ∷ s) =
    if c == b'-'
    then in_range true (magnitude_of s)
    else if c == b'+'
    then in_range false (magnitude_of s)
    else in_range false (magnitude_of (c ∷ s))

-- The decimal digits of a number that `fuel` digits hold, in front of `tail`.
unfoldable pub decimal : ℕ → ℕ → Bytes → Bytes
decimal zero n tail = tail
decimal (suc fuel) n tail =
    let d = (b'0' + n % 10) ∷ tail in
    let more = decimal fuel (n / 10) d in if ltb n 10 then d else more

-- `strconv.FormatInt(n, 10)`; an int64 has 19 digits at most.
unfoldable pub format_int : ℤ → Bytes
unfolding decimal
format_int (pos n) = decimal 20 n []
format_int (negsuc n) = b'-' ∷ decimal 20 (suc n) []
