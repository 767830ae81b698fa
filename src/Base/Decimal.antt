-- ===== src/Base/Decimal.antt =====
-- Decimal numbers as text: `strconv.ParseInt` on what `strconv.FormatInt` gives.
use Prim.Native.Nat.{ℕ, zero, suc, ◌+◌, ◌-◌, ◌*◌, ◌/◌, ◌%◌, ◌^◌, ◌<◌, ◌≤◌}
use mathlib.Core.Path.{◌≡◌, refl, ap, subst, ◌∙◌}
use mathlib.Core.Logic.{◌⊎◌, inl, inr}
use mathlib.Core.Bool.{true, false, ◌&&◌}
use mathlib.Core.Option.{some}
use mathlib.Core.List.{[], ◌∷◌}
use native.Mathlib.Omega.{arith}
use native.Mathlib.Numerals.{unary_clauses}
use go_posix.Base.Tests.{ltb, leb, ◌==◌, Bool-cases, tests}
use go_posix.Base.ByteStrings.{Bytes, All}
use go_posix.Base.Lists.{length}
use go_posix.Base.Int64.{pos, digits, decimal, magnitude_of, in_range, parse_int, format_int}

-- A digit.
unfoldable pub Digit : ℕ → Type 0
Digit c = (b'0' ≤ c) × (c ≤ b'9')

-- `n` has `fuel` digits at most.
unfoldable Digits : ℕ → ℕ → Type 0
Digits zero n = n < 1
Digits (suc fuel) n = (n < 10) ⊎ Digits fuel (n / 10)

decimal-Digit : (fuel n : ℕ) (tail : Bytes) → All Digit tail → All Digit (decimal fuel n tail)
unfolding decimal Digit
decimal-Digit zero n tail h = h
decimal-Digit (suc fuel) n tail h =
    let d : All Digit ((b'0' + n % 10) ∷ tail) = ((omega arith, omega arith), h) in
    elim (Bool-cases (ltb n 10)) [
      | inl e ↦ rw e d
      | inr e ↦ rw e (decimal-Digit fuel (n / 10) ((b'0' + n % 10) ∷ tail) d)
    ]

digits-digit :
    (k d : ℕ) (tail : Bytes) → d < 10 → digits k ((b'0' + d) ∷ tail) ≡ digits (k * 10 + d) tail
unfolding digits
digits-digit k d tail h =
    let same : k * 10 + (b'0' + d - b'0') ≡ k * 10 + d = omega arith in
    let tested : (leb b'0' (b'0' + d) && leb (b'0' + d) b'9') ≡ true = ground (arith, h) in
    rw (tested, same)

digits-decimal :
    (fuel n : ℕ) (tail : Bytes) → Digits fuel n → digits 0 (decimal fuel n tail) ≡ digits n tail
unfolding decimal Digits
digits-decimal zero n tail h = ap (λ k. digits k tail) (omega (arith, h))
digits-decimal (suc fuel) n tail h = elim (Bool-cases (ltb n 10)) [
  | inl e ↦ rw e (
      digits-digit 0 (n % 10) tail (omega arith)
      ∙ ap (λ k. digits k tail) {x = 0 * 10 + n % 10} {y = n} (omega (tests, e)))
  | inr e ↦
      let more : Digits fuel (n / 10) = elim h [
        | inl small ↦ absurd (ground (arith, e, small))
        | inr more ↦ more
      ] in
      rw e (
        digits-decimal fuel (n / 10) ((b'0' + n % 10) ∷ tail) more
        ∙ digits-digit (n / 10) (n % 10) tail (omega arith)
        ∙ ap (λ k. digits k tail) {x = n / 10 * 10 + n % 10} {y = n} (omega arith))
]

Digits-below : (fuel n : ℕ) → n < 10 ^ fuel → Digits fuel n
unfolding Digits
Digits-below zero n h = h
Digits-below (suc fuel) n h =
    let h2 = simp unary_clauses at h in inr (Digits-below fuel (n / 10) (omega (arith, h2)))

decimal_nonempty :
    (fuel n c : ℕ) (tail : Bytes) → (c2 : ℕ) × (s : Bytes) × (decimal fuel n (c ∷ tail) ≡ c2 ∷ s)
unfolding decimal
decimal_nonempty zero n c tail = (c, tail, refl)
decimal_nonempty (suc fuel) n c tail = elim (Bool-cases (ltb n 10)) [
  | inl e ↦ (b'0' + n % 10, c ∷ tail, rw e refl)
  | inr e ↦ rw e (decimal_nonempty fuel (n / 10) (b'0' + n % 10) (c ∷ tail))
]

decimal_cons : (fuel n : ℕ) → (c : ℕ) × (s : Bytes) × (decimal (suc fuel) n [] ≡ c ∷ s)
unfolding decimal
decimal_cons fuel n = elim (Bool-cases (ltb n 10)) [
  | inl e ↦ (b'0' + n % 10, [], rw e refl)
  | inr e ↦ rw e (decimal_nonempty fuel (n / 10) (b'0' + n % 10) [])
]

parse_int-digits :
    (n c : ℕ) (s : Bytes)
    → Digit c
    → digits 0 (c ∷ s) ≡ some n
    → n < 2 ^ 63
    → parse_int (c ∷ s) ≡ some (pos n)
unfolding parse_int magnitude_of in_range Digit
parse_int-digits n c s digit h lt =
    let minus : (c == b'-') ≡ false = ground (arith, digit) in
    let plus : (c == b'+') ≡ false = ground (arith, digit) in
    let small : ltb n (2 ^ 63) ≡ true = ground (arith, lt) in rw (minus, plus, h, small) refl

parse_int-decimal :
    (fuel n : ℕ)
    → Digits (suc fuel) n
    → n < 2 ^ 63
    → parse_int (decimal (suc fuel) n []) ≡ some (pos n)
unfolding digits
parse_int-decimal fuel n h lt =
    let (c, s, e) = decimal_cons fuel n in
    let (digit, _) = subst (All Digit) e (decimal-Digit (suc fuel) n [] tt) in
    rw e (
      parse_int-digits n c s digit
        (subst (λ t. digits 0 t ≡ some n) e (digits-decimal (suc fuel) n [] h)) lt)

-- The digits of a number.
pub format_int-Digit : (n : ℕ) → All Digit (format_int (pos n))
unfolding format_int
format_int-Digit n = decimal-Digit 20 n [] tt

-- An int64 that is not negative is read as it is written.
pub parse_int-format_int : (n : ℕ) → n < 2 ^ 63 → parse_int (format_int (pos n)) ≡ some (pos n)
unfolding format_int
parse_int-format_int n h = parse_int-decimal 19 n (Digits-below 20 n (omega (arith, h))) h

length-decimal : (fuel n : ℕ) (tail : Bytes) → length (decimal fuel n tail) ≤ fuel + length tail
unfolding decimal
length-decimal zero n tail = omega arith
length-decimal (suc fuel) n tail =
    ground (arith, length-decimal fuel (n / 10) ((b'0' + n % 10) ∷ tail))

pub length-format_int : (n : ℕ) → length (format_int (pos n)) ≤ 20
unfolding format_int
length-format_int n = omega (arith, length-decimal 20 n [])
