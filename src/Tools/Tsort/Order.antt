-- ===== src/Tools/Tsort/Order.antt =====
-- The order in which Kahn's algorithm gives the nodes.
use go_posix.Base.{
  ℕ, zero, suc, ◌+◌, ◌≤◌, ◌≡◌, ◌≢◌, ◌∙◌, ap, Bool, true, false, ◌||◌, Bool-cases, inl, inr, ◌⊎◌,
  Option, some, List, [], ◌∷◌, ◌++◌, All, Bytes, beq, beq_iff, arith, ◌==◌, if◌then◌else◌, length,
}
use go_posix.Tools.Tsort.{Degrees, member, successors, relax, drain}
use go_posix.Tools.Tsort.Counts.{pending_to, pending, times, member-snoc, pending-snoc}
use go_posix.Tools.Tsort.Rounds.{
  Invariant, lowered, member-first, relax-Invariant, next-Invariant, length-relax,
}

-- Every end of an edge to a node is among the nodes in front of it.
pub data Ordered (es : List (Bytes × Bytes)) : List Bytes → Type 0 where
  no_node : Ordered es []
  next_node :
      (before : List Bytes) (v : Bytes)
      → Ordered es before
      → member v before ≡ false
      → All (λ (x, y). beq y v ≡ true → member x before ≡ true) es
      → Ordered es (before ++ v ∷ [])

pending_to-All :
    (v : Bytes) (done : List Bytes) (es : List (Bytes × Bytes))
    → pending_to v done es ≡ 0
    → All (λ (x, y). beq y v ≡ true → member x done ≡ true) es
unfolding pending_to
pending_to-All v done [] h = tt
pending_to-All v done ((x, y) ∷ es) h = (λ e. ground arith, pending_to-All v done es (ground arith))

-- The nodes without pending edges to them are in the queue or done.
abbrev pub Reached : List Bytes → Degrees → List Bytes → List Bytes → Type 0
Reached nodes degrees queue done =
    (w : Bytes) → member w nodes ≡ true → degrees w ≡ 0 → (member w queue || member w done) ≡ true

longer-member :
    (b : Bool) (queue done : List Bytes) (v w : Bytes)
    → (member w queue || member w done) ≡ true
    → (member w (if b then queue ++ v ∷ [] else queue) || member w done) ≡ true
longer-member true queue done v w h = ground (arith, member-snoc w v queue)
longer-member false queue done v w h = h

round-Reached :
    (nodes : List Bytes) (degrees : Degrees) (queue done : List Bytes) (v : Bytes)
    → Reached nodes degrees queue done
    → Reached nodes
        (lowered degrees v)
        (if lowered degrees v v == 0 then queue ++ v ∷ [] else queue)
        done
round-Reached nodes degrees queue done v r w h z = elim (Bool-cases (beq v w)) [
  | inl e ↦
      let same : v ≡ w = (beq_iff v w).0 e in
      let low : lowered degrees v v ≡ 0 = ap (lowered degrees v) same ∙ z in
      let now : (lowered degrees v v == 0) ≡ true = ground arith in
      rw now (ground (arith, member-snoc w v queue))
  | inr e ↦
      let before = r w h (ground arith) in
      longer-member (lowered degrees v v == 0) queue done v w before
]

relax-Reached :
    (nodes : List Bytes) (degrees : Degrees) (queue done vs : List Bytes)
    → Reached nodes degrees queue done
    → Reached nodes (relax degrees queue vs).0 (relax degrees queue vs).1 done
unfolding relax
relax-Reached nodes degrees queue done [] r = r
relax-Reached nodes degrees queue done (v ∷ vs) r =
    relax-Reached nodes (lowered degrees v)
      (if lowered degrees v v == 0 then queue ++ v ∷ [] else queue) done vs
      (round-Reached nodes degrees queue done v r)

next-Reached :
    (nodes : List Bytes) (degrees : Degrees) (u : Bytes) (queue done : List Bytes)
    → Reached nodes degrees (u ∷ queue) done
    → Reached nodes degrees queue (done ++ u ∷ [])
unfolding member
next-Reached nodes degrees u queue done r w h z =
    let before = r w h z in ground (arith, member-snoc w u done)

-- A node of the result, or one that waits for an edge from a node that is not.
abbrev Settled : List (Bytes × Bytes) → List Bytes → Bytes → Type 0
Settled es result w = (member w result ≡ true) ⊎ (pending_to w result es ≢ 0)

-- What the loop returns.
pub data Drains (es : List (Bytes × Bytes)) (nodes : List Bytes)
    : Option (List Bytes) → Type 0 where
  drained :
      {result : List Bytes}
      → Ordered es result
      → All (Settled es result) nodes
      → Drains es nodes (some result)

All-member :
    (P : Bytes → Type 0) (xs : List Bytes) → ((w : Bytes) → member w xs ≡ true → P w) → All P xs
unfolding member
All-member P [] f = tt
All-member P (x ∷ xs) f = (f x (member-first x xs), All-member P xs (λ w h. f w (ground arith)))

settled :
    (es : List (Bytes × Bytes)) (nodes : List Bytes) (degrees : Degrees) (done : List Bytes)
    → Invariant es degrees [] done []
    → Reached nodes degrees [] done
    → (w : Bytes) → member w nodes ≡ true
    → Settled es done w
unfolding times member
settled es nodes degrees done i r w h = elim (Bool-cases (degrees w == 0)) [
  | inl e ↦ inl (r w h (ground arith))
  | inr e ↦ inr (ground (arith, i.counted w))
]

pub drain-Drains :
    (es : List (Bytes × Bytes)) (nodes : List Bytes) (fuel : ℕ) (degrees : Degrees)
    (queue done : List Bytes)
    → Invariant es degrees queue done []
    → Reached nodes degrees queue done
    → Ordered es done
    → length queue + pending done es ≤ fuel
    → Drains es nodes (drain fuel es degrees queue done)
unfolding drain
drain-Drains es nodes fuel degrees [] done i r o le =
    drained o (All-member (Settled es done) nodes (settled es nodes degrees done i r))
drain-Drains es nodes zero degrees (u ∷ queue) done i r o le = absurd (omega arith)
drain-Drains es nodes (suc fuel) degrees (u ∷ queue) done i r o le =
    let first = member-first u queue in
    let not_done = i.fresh u first in
    let vs = successors u es in
    let behind =
      relax-Invariant es degrees queue (done ++ u ∷ []) vs
        (next-Invariant es degrees u queue done i) in
    let reached =
      relax-Reached nodes degrees queue (done ++ u ∷ []) vs
        (next-Reached nodes degrees u queue done r) in
    let none_pending : pending_to u done es ≡ 0 = omega (arith, i.counted u, i.queued u first) in
    drain-Drains es nodes fuel (relax degrees queue vs).0 (relax degrees queue vs).1
      (done ++ u ∷ []) behind reached
      (next_node done u o not_done (pending_to-All u done es none_pending))
      (omega (arith, length-relax es degrees queue vs, pending-snoc u done es not_done))
