-- ===== src/Tools/Tsort/Rounds.antt =====
-- The rounds of the two loops of Kahn's algorithm.
use go_posix.Base.{
  ◌+◌, ◌-◌, ◌≤◌, ◌≡◌, ◌≢◌, ap, subst, Bool, true, false, Bool-cases, inl, inr, List, [], ◌∷◌, ◌++◌,
  Bytes, beq, beq_iff, arith, ◌==◌, if◌then◌else◌, length, length-append,
}
use go_posix.Tools.Tsort.{Degrees, member, successors, relax}
use go_posix.Tools.Tsort.Counts.{
  pending_to, times, member-snoc, pending_to-snoc, Distinct, Distinct-snoc,
}

-- Between the rounds of the loops: `vs` is what is left of the successors of the last node of `done`.
pub record Invariant (es : List (Bytes × Bytes)) (degrees : Degrees) (queue done vs : List Bytes)
    : Type 0 where
  pub counted : (w : Bytes) → degrees w ≡ pending_to w done es + times w vs
  pub queued : (w : Bytes) → member w queue ≡ true → degrees w ≡ 0
  pub finished : (w : Bytes) → member w done ≡ true → degrees w ≡ 0
  pub fresh : (w : Bytes) → member w queue ≡ true → member w done ≡ false
  pub distinct : Distinct queue
  pub distinct_done : Distinct done

-- What holds of the members of a list and of one more.
all-snoc :
    (P : Bytes → Type 0) (xs : List Bytes) (v : Bytes)
    → ((w : Bytes) → member w xs ≡ true → P w)
    → P v
    → (w : Bytes) → member w (xs ++ v ∷ []) ≡ true
    → P w
all-snoc P xs v f p w h = elim (Bool-cases (member w xs)) [
  | inl e ↦ f w e
  | inr e ↦ let same : v ≡ w = ground (arith, member-snoc w v xs, beq_iff v w) in subst P same p
]

absent :
    (degrees : Degrees) (xs : List Bytes) (v : Bytes)
    → degrees v ≢ 0
    → ((w : Bytes) → member w xs ≡ true → degrees w ≡ 0)
    → member v xs ≡ false
absent degrees xs v ne f = elim (Bool-cases (member v xs)) [
  | inl e ↦ absurd (ne (f v e))
  | inr e ↦ e
]

length-longer :
    (b : Bool) (queue : List Bytes) (v : Bytes)
    → length (if b then queue ++ v ∷ [] else queue) ≤ length queue + 1
length-longer true queue v = omega (arith, length-append queue (v ∷ []))
length-longer false queue v = omega arith

pub member-first : (u : Bytes) (xs : List Bytes) → member u (u ∷ xs) ≡ true
unfolding member
member-first u xs = ground (arith, beq_iff u u)

abbrev pub lowered : Degrees → Bytes → Degrees
lowered degrees v = λ w. if beq v w then degrees w - 1 else degrees w

module _ (es : List (Bytes × Bytes)) where
  lowered-Invariant :
      (degrees : Degrees) (queue done : List Bytes) (v : Bytes) (vs : List Bytes)
      → Invariant es degrees queue done (v ∷ vs)
      → Invariant es (lowered degrees v) queue done vs
  unfolding times
  lowered-Invariant degrees queue done v vs i = record {
    counted = λ w. let c = i.counted w in ground arith;
    queued = λ w h. let z = i.queued w h in ground arith;
    finished = λ w h. let z = i.finished w h in ground arith;
    fresh = i.fresh;
    distinct = i.distinct;
    distinct_done = i.distinct_done;
  }

  -- The node that a round lowers was not at 0, so it is neither in the queue nor done.
  positive :
      (degrees : Degrees) (queue done : List Bytes) (v : Bytes) (vs : List Bytes)
      → Invariant es degrees queue done (v ∷ vs)
      → degrees v ≢ 0
  unfolding times
  positive degrees queue done v vs i = let c = i.counted v in ground (arith, beq_iff v v)

  snoc-Invariant :
      (degrees : Degrees) (queue done : List Bytes) (v : Bytes) (vs : List Bytes)
      → Invariant es degrees queue done vs
      → member v queue ≡ false
      → member v done ≡ false
      → degrees v ≡ 0
      → Invariant es degrees (queue ++ v ∷ []) done vs
  snoc-Invariant degrees queue done v vs i out not_done zero_ = record {
    counted = i.counted;
    queued = λ w h. all-snoc (λ x. degrees x ≡ 0) queue v i.queued zero_ w h;
    finished = i.finished;
    fresh = λ w h. all-snoc (λ x. member x done ≡ false) queue v i.fresh not_done w h;
    distinct = Distinct-snoc v queue i.distinct out;
    distinct_done = i.distinct_done;
  }

  -- A round of the inner loop.
  round-Invariant :
      (degrees : Degrees) (queue done : List Bytes) (v : Bytes) (vs : List Bytes)
      → Invariant es degrees queue done (v ∷ vs)
      → Invariant es
          (lowered degrees v)
          (if lowered degrees v v == 0 then queue ++ v ∷ [] else queue)
          done
          vs
  round-Invariant degrees queue done v vs i =
      let low = lowered-Invariant degrees queue done v vs i in
      let ne = positive degrees queue done v vs i in
      let out : member v queue ≡ false = absent degrees queue v ne i.queued in
      let not_done : member v done ≡ false = absent degrees done v ne i.finished in
      elim (Bool-cases (lowered degrees v v == 0)) [
        | inl e ↦
            rw e
              (snoc-Invariant (lowered degrees v) queue done v vs low out not_done (ground arith))
        | inr e ↦ rw e low
      ]

  pub relax-Invariant :
      (degrees : Degrees) (queue done vs : List Bytes)
      → Invariant es degrees queue done vs
      → Invariant es (relax degrees queue vs).0 (relax degrees queue vs).1 done []
  unfolding relax
  relax-Invariant degrees queue done [] i = i
  relax-Invariant degrees queue done (v ∷ vs) i =
      relax-Invariant (lowered degrees v)
        (if lowered degrees v v == 0 then queue ++ v ∷ [] else queue) done vs
        (round-Invariant degrees queue done v vs i)

  -- The first node of the queue becomes the last that is done.
  pub next-Invariant :
      (degrees : Degrees) (u : Bytes) (queue done : List Bytes)
      → Invariant es degrees (u ∷ queue) done []
      → Invariant es degrees queue (done ++ u ∷ []) (successors u es)
  unfolding member times
  next-Invariant degrees u queue done i =
      let first = member-first u queue in
      let not_done = i.fresh u first in
      record {
        counted = λ w. let c = i.counted w in omega (arith, pending_to-snoc w u done es not_done);
        queued = λ w h. i.queued w (ground arith);
        finished = λ w h. all-snoc (λ x. degrees x ≡ 0) done u i.finished (i.queued u first) w h;
        fresh = λ w h.
            let before : member w done ≡ false = i.fresh w (ground arith) in
            elim (Bool-cases (beq u w)) [
              | inl e ↦
                  let same : u ≡ w = (beq_iff u w).0 e in
                  absurd (ground (arith, ap (λ x. member x queue) same))
              | inr e ↦ ground (arith, member-snoc w u done)
            ];
        distinct = i.distinct.1;
        distinct_done = Distinct-snoc u done i.distinct_done not_done;
      }

  pub length-relax :
      (degrees : Degrees) (queue vs : List Bytes)
      → length (relax degrees queue vs).1 ≤ length queue + length vs
  unfolding relax
  length-relax degrees queue [] = omega arith
  length-relax degrees queue (v ∷ vs) =
      let longer = length-longer (lowered degrees v v == 0) queue v in
      let rest =
        length-relax (lowered degrees v)
          (if lowered degrees v v == 0 then queue ++ v ∷ [] else queue) vs in
      omega (arith, longer, rest)
