-- ===== src/Daemon/Limits/Bounds.antt =====
-- What the limits let through.
use go_posix.Base.{
  ℕ, zero, suc, ◌+◌, ◌-◌, ◌≤◌, ◌≡◌, refl, sym, tests, ap, ◌∙◌, some, List, [], ◌∷◌, ◌++◌,
  append_assoc, append-nil, Bytes, length, take, length-append, length-take, arith, ltb, leb,
  Bool-cases, inl, inr,
}
use mathlib.Core.List.{flatten}
use go_posix.Daemon.Limits.{LimitWriter, write, write_all, PerRequestLimitReader, read_some}

-- `Wrote` counts the bytes of the buffer, which are no more than the limit.
pub record IsValid (lw : LimitWriter) : Type 0 where
  pub counted : lw.wrote ≡ length lw.w
  pub within : lw.wrote ≤ lw.limit

take_all {ℓ} : {A : Type ℓ} (n : ℕ) (xs : List A) → length xs ≤ n → take n xs ≡ xs
take_all zero [] h = refl
take_all (suc n) [] h = refl
take_all zero (x ∷ xs) h = absurd (omega arith)
take_all (suc n) (x ∷ xs) h = ap (λ (l : List _). x ∷ l) (take_all n xs (omega arith))

take-append {ℓ} :
    {A : Type ℓ} (n : ℕ) (xs ys : List A)
    → length xs ≤ n
    → take n (xs ++ ys) ≡ xs ++ take (n - length xs) ys
take-append n [] ys h = ap (λ (k : ℕ). take k ys) (omega arith)
take-append zero (x ∷ xs) ys h = absurd (omega arith)
take-append (suc n) (x ∷ xs) ys h =
    ap (λ (l : List _). x ∷ l)
      (take-append n xs ys (omega arith) ∙ ap (λ (k : ℕ). xs ++ take k ys) (omega arith))

write-IsValid : (lw : LimitWriter) (p : Bytes) → IsValid lw → IsValid (write lw p).0
unfolding write
write-IsValid lw p v = ground (
  arith,
  length-append lw.w p,
  length-append lw.w (take (lw.limit - lw.wrote) p),
  length-take (lw.limit - lw.wrote) p,
)

-- A write keeps the limit, and the buffer gets what of the bytes still fits.
write-limit : (lw : LimitWriter) (p : Bytes) → (write lw p).0.limit ≡ lw.limit
unfolding write
write-limit lw p = ground arith

take_full {ℓ} : {A : Type ℓ} (n : ℕ) (xs ys : List A) → length xs ≡ n → take n (xs ++ ys) ≡ xs
take_full n xs ys h =
    let e : n - length xs ≡ 0 = omega arith in
    take-append n xs ys (omega arith) ∙ ap (λ (k : ℕ). xs ++ take k ys) e ∙ append-nil xs

write-take :
    (lw : LimitWriter) (p : Bytes) → IsValid lw → (write lw p).0.w ≡ take lw.limit (lw.w ++ p)
unfolding write
write-take lw p v = elim (Bool-cases (leb lw.limit lw.wrote)) [
  | inl full ↦ rw full (sym (take_full lw.limit lw.w p (omega (tests, v.counted, v.within))))
  | inr e ↦ elim (Bool-cases (ltb lw.limit (lw.wrote + length p))) [
    | inl over ↦
        rw (e, over)
          (ap (λ (k : ℕ). lw.w ++ take (lw.limit - k) p) v.counted
            ∙ sym (take-append lw.limit lw.w p (omega arith)))
    | inr fits ↦
        rw (e, fits) (sym (take_all lw.limit (lw.w ++ p) (ground (arith, length-append lw.w p))))
  ]
]

take-append_take {ℓ} :
    {A : Type ℓ} (n : ℕ) (xs ys : List A) → take n (take n xs ++ ys) ≡ take n (xs ++ ys)
take-append_take zero xs ys = refl
take-append_take (suc n) [] ys = refl
take-append_take (suc n) (x ∷ xs) ys = ap (λ (l : List _). x ∷ l) (take-append_take n xs ys)

-- After any writes the buffer holds the first `limit` bytes of all that was written, and no more.
pub write_all-take :
    (lw : LimitWriter) (ps : List Bytes)
    → IsValid lw
    → (write_all lw ps).w ≡ take lw.limit (lw.w ++ flatten ps)
unfolding write_all flatten
write_all-take lw [] v = rw append-nil (sym (take_all lw.limit lw.w (omega arith)))
write_all-take lw (p ∷ ps) v =
    write_all-take (write lw p).0 ps (write-IsValid lw p v)
    ∙ rw (write-limit, write-take lw p v)
        (take-append_take lw.limit (lw.w ++ p) (flatten ps)
          ∙ ap (take lw.limit) (append_assoc lw.w p (flatten ps)))

-- As long as the reader below returns no more than it is asked for, no `Read` goes past the limit of
-- a request, and a `Read` that returns bytes fits its buffer.
read_some_bound :
    (source : ℕ → ℕ) (pr : PerRequestLimitReader) (size : ℕ)
    → ((n : ℕ) → source n ≤ n)
    → pr.read ≤ pr.limit
    → ((read_some source pr size).0.read ≤ (read_some source pr size).0.limit)
      × ((n : ℕ) → (read_some source pr size).1 ≡ some n → n ≤ size)
unfolding read_some
read_some_bound source pr size h r = (grind (arith, h), λ n e. grind (arith, h))
