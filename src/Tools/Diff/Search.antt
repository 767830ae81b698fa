-- ===== src/Tools/Diff/Search.antt =====
-- The loops of the search of `Diff`: the rounds, and the trace that they leave.
use go_posix.Base.{
  ℕ, zero, suc, ◌+◌, ◌-◌, ◌≤◌, ◌<◌, ◌≡◌, ◌≢◌, refl, sym, ◌∙◌, subst⁻¹, ◌⊎◌, inl, inr, Bool, true,
  false, List, [], ◌∷◌, ◌++◌, Bytes, arith, length, length-append, get_or, drop, if◌then◌else◌,
  ◌==◌, ◌&&◌, leb, Bool-cases,
}
use go_posix.Tools.Diff.{Array, store, snake, goes_down, round, outer}
use go_posix.Tools.Diff.Furthest.{furthest, start, furthest-start, Reaches}
use go_posix.Tools.Diff.Rows.{Row, Before, start_x, store_self, store_other}

-- The paths of `d` steps with fewer than `j` deletions are in the array and do not reach the ends.
Done : List Bytes → List Bytes → ℕ → ℕ → ℕ → Array → Type 0
Done a b max_d d j v =
    (j2 r2 i2 : ℕ)
    → j2 + r2 ≡ d
    → i2 + r2 ≡ max_d + j2
    → j2 < j
    → (v i2 ≡ j2 + furthest a b j2 r2) × ¬ Reaches a b j2 r2

-- A path of `d` steps reaches the ends.
unfoldable pub Found : List Bytes → List Bytes → ℕ → Type 0
Found a b d = (j r : ℕ) × (j + r ≡ d) × Reaches a b j r

-- The two results of a round.
Rounded : List Bytes → List Bytes → ℕ → ℕ → Array × Bool → Type 0
Rounded a b max_d d (v, over) =
    ((over ≡ true) × Found a b d) ⊎ ((over ≡ false) × Done a b max_d d (suc d) v)

Before-store :
    (a b : List Bytes) (max_d d : ℕ) (v : Array) (j r i x : ℕ)
    → Before a b max_d d v
    → j + r ≡ d
    → i + r ≡ max_d + j
    → Before a b max_d d (store v i x)
unfolding Before Row
Before-store a b max_d zero v j r i x before s at =
    store_other v i x (max_d + 1) (omega (arith, s, at)) ∙ before
Before-store a b max_d (suc d) v j r i x before s at =
    λ j2 r2 i2 s2 at2. store_other v i x i2 (omega (arith, s, at, s2, at2)) ∙ before j2 r2 i2 s2 at2

Done-store :
    (a b : List Bytes) (max_d d : ℕ) (v : Array) (j r i x : ℕ)
    → Done a b max_d d j v
    → j + r ≡ d
    → i + r ≡ max_d + j
    → x ≡ j + furthest a b j r
    → ¬ Reaches a b j r
    → Done a b max_d d (suc j) (store v i x)
unfolding Done
Done-store a b max_d d v j r i x done s at far short j2 r2 i2 s2 at2 lt =
    elim (Bool-cases (j2 == j)) [
      | inl e ↦
          let q : j2 ≡ j = ground (arith, e) in
          let q2 : r2 ≡ r = omega (arith, q, s, s2) in
          let q3 : i2 ≡ i = omega (arith, q, q2, at, at2) in
          rw (q, q2, q3) (store_self v i x ∙ far, short)
      | inr e ↦
          let q : j2 ≢ j = ground (arith, e) in
          let (held, short2) = done j2 r2 i2 s2 at2 (omega (arith, q, lt)) in
          (store_other v i x i2 (omega (arith, q, s, s2, at, at2)) ∙ held, short2)
    ]

round-Rounded :
    (a b : List Bytes) (max_d d n j i : ℕ) (v : Array)
    → j + n ≡ suc d
    → i + n ≡ suc (max_d + j)
    → d ≤ max_d
    → Before a b max_d d v
    → Done a b max_d d j v
    → Rounded a b max_d d (round a b max_d d i n v)
unfolding round Rounded Reaches Done Found
round-Rounded a b max_d d zero j i v s at le before done =
    inr (refl, λ j2 r2 i2 s2 at2 lt. done j2 r2 i2 s2 at2 (omega (arith, s, lt)))
round-Rounded a b max_d d (suc n) j i v s at le before done =
    let x0 = if goes_down v max_d d i then v (i + 1) else v (i - 1) + 1 in
    let y0 = x0 + max_d - i in
    let equal = snake (drop x0 a) (drop y0 b) in
    let u = start a b j n in
    let at_x : x0 ≡ j + u =
      start_x a b max_d d v j n i before (omega (arith, s)) le (omega (arith, at)) in
    let at_y : y0 ≡ n + u = omega (arith, at_x, at, s, le) in
    let same : equal ≡ snake (drop (j + u) a) (drop (n + u) b) = rw (at_y, at_x) in
    let far_x : x0 + equal ≡ j + furthest a b j n =
      omega (arith, at_x, same, furthest-start a b j n) in
    let far_y : y0 + equal ≡ n + furthest a b j n =
      omega (arith, at_y, same, furthest-start a b j n) in
    elim (Bool-cases (leb (length a) (x0 + equal) && leb (length b) (y0 + equal))) [
      | inl e ↦ rw e (
          inl
            (refl, (j, n, omega (arith, s), (ground (arith, e, far_x), ground (arith, e, far_y)))))
      | inr e ↦ rw e (
          round-Rounded a b max_d d n (suc j) (i + 2) (store v i (x0 + equal)) (omega (arith, s))
            (omega (arith, at)) le
            (Before-store a b max_d d v j n i (x0 + equal) before (omega (arith, s))
              (omega (arith, at)))
            (Done-store a b max_d d v j n i (x0 + equal) done (omega (arith, s)) (omega (arith, at))
              far_x (λ (ha, hb). absurd (ground (arith, e, ha, hb, far_x, far_y)))))
    ]

module _ {ℓ} {A : Type ℓ} where
  get_or-append :
      (xs ys : List A) (i : ℕ) (z : A) → i < length xs → get_or (xs ++ ys) i z ≡ get_or xs i z
  get_or-append [] ys i z h = absurd (omega (arith, h))
  get_or-append (x ∷ xs) ys zero z h = refl
  get_or-append (x ∷ xs) ys (suc i) z h = get_or-append xs ys i z (omega (arith, h))

  get_or-last : (xs : List A) (y z : A) → get_or (xs ++ y ∷ []) (length xs) z ≡ y
  get_or-last [] y z = refl
  get_or-last (x ∷ xs) y z = get_or-last xs y z

-- The copies in the trace hold the furthest paths of fewer than `d` steps.
unfoldable pub Traced : List Bytes → List Bytes → ℕ → ℕ → List Array → Type 0
Traced a b max_d d trace = (e : ℕ) → e < d → Row a b max_d e (get_or trace e (λ i. 0))

-- The result of the search.
pub record First (a b : List Bytes) (max_d d : ℕ) (trace : List Array) : Type 0 where
  pub bounded : d ≤ max_d
  pub traced : Traced a b max_d d trace
  pub found : Found a b d
  pub shorter : (j r : ℕ) → j + r < d → ¬ Reaches a b j r

Traced-more :
    (a b : List Bytes) (max_d d : ℕ) (trace rows : List Array)
    → length trace ≡ d
    → Traced a b max_d d trace
    → Traced a b max_d d (trace ++ rows)
unfolding Traced
Traced-more a b max_d d trace rows len traced e lt =
    subst⁻¹ (Row a b max_d e) (get_or-append trace rows e (λ i. 0) (omega (arith, len, lt)))
      (traced e lt)

Traced-append :
    (a b : List Bytes) (max_d d : ℕ) (trace : List Array) (v : Array)
    → length trace ≡ d
    → Traced a b max_d d trace
    → Row a b max_d d v
    → Traced a b max_d (suc d) (trace ++ v ∷ [])
unfolding Traced
Traced-append a b max_d d trace v len traced row e lt = elim (Bool-cases (e == d)) [
  | inl q ↦
      subst⁻¹ (λ k. Row a b max_d k (get_or (trace ++ v ∷ []) k (λ i. 0)))
        (ground (arith, q) ∙ sym len)
        (subst⁻¹ (Row a b max_d (length trace)) (get_or-last trace v (λ i. 0))
          (subst⁻¹ (λ k. Row a b max_d k v) len row))
  | inr q ↦ Traced-more a b max_d d trace (v ∷ []) len traced e (ground (arith, q, lt))
]

pub outer-First :
    (a b : List Bytes) (max_d n d : ℕ) (v : Array) (trace : List Array)
    → max_d ≡ length a + length b
    → d + n ≡ suc max_d
    → length trace ≡ d
    → Before a b max_d d v
    → Traced a b max_d d trace
    → ((j r : ℕ) → j + r < d → ¬ Reaches a b j r)
    → First a b max_d (outer a b max_d n d v trace).0 (outer a b max_d n d v trace).1
unfolding outer Rounded Done Before Row Reaches
outer-First a b max_d zero d v trace total s len before traced shorter =
    absurd (shorter (length a) (length b) (omega (arith, s, total)) (omega arith, omega arith))
outer-First a b max_d (suc n) d v trace total s len before traced shorter =
    let result = round a b max_d d (max_d - d) (suc d) v in
    let trace2 = trace ++ result.0 ∷ [] in
    elim (round-Rounded a b max_d d (suc d) 0 (max_d - d) v (omega arith) (omega (arith, s))
      (omega (arith, s)) before (λ j2 r2 i2 s2 at2 lt. absurd (omega (arith, lt)))) [
        | inl (e, found) ↦ rw e (record {
          bounded = omega (arith, s);
          traced = Traced-more a b max_d d trace (result.0 ∷ []) len traced;
          found = found;
          shorter = shorter;
        })
        | inr (e, done) ↦
            let row : Row a b max_d d result.0 =
              λ j r i s2 at. (done j r i s2 at (omega (arith, s2))).0 in
            rw e (
              outer-First a b max_d n (suc d) result.0 trace2 total (omega (arith, s))
                (omega (arith, len, length-append trace (result.0 ∷ []))) row
                (Traced-append a b max_d d trace result.0 len traced row)
                (λ j r lt. elim (Bool-cases (j + r == d)) [
                  | inl q ↦
                      (done j r (max_d + j - r) (ground (arith, q)) (ground (arith, q, s))
                        (ground (arith, q))).1
                  | inr q ↦ shorter j r (ground (arith, q, lt))
                ]))
      ]
