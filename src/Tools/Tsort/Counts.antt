-- ===== src/Tools/Tsort/Counts.antt =====
-- The edges of a graph of `tsort` that are still to come.
use go_posix.Base.{
  ℕ, suc, ◌+◌, ◌≡◌, refl, false, not, ◌&&◌, ◌||◌, List, [], ◌∷◌, ◌++◌, Bytes, beq, beq_iff, arith,
  if◌then◌else◌, length,
}
use go_posix.Tools.Tsort.{member, successors}

-- The edges to `w` whose other end is not among the nodes `done`, and all edges that begin at no such
-- node.
unfoldable pub pending_to : Bytes → List Bytes → List (Bytes × Bytes) → ℕ
pending_to w done [] = 0
pending_to w done ((x, y) ∷ es) =
    let rest = pending_to w done es in if beq y w && not (member x done) then suc rest else rest

unfoldable pub pending : List Bytes → List (Bytes × Bytes) → ℕ
pending done [] = 0
pending done ((x, y) ∷ es) = let rest = pending done es in if member x done then rest else suc rest

unfoldable pub times : Bytes → List Bytes → ℕ
times w [] = 0
times w (v ∷ vs) = let rest = times w vs in if beq v w then suc rest else rest

pub member-snoc :
    (w u : Bytes) (xs : List Bytes) → member w (xs ++ u ∷ []) ≡ (member w xs || beq u w)
unfolding member
member-snoc w u [] = ground arith
member-snoc w u (x ∷ xs) = ground (arith, member-snoc w u xs)

pub pending_to-snoc :
    (w u : Bytes) (done : List Bytes) (es : List (Bytes × Bytes))
    → member u done ≡ false
    → pending_to w done es ≡ pending_to w (done ++ u ∷ []) es + times w (successors u es)
unfolding pending_to successors times
pending_to-snoc w u done [] h = omega arith
pending_to-snoc w u done ((x, y) ∷ es) h =
    ground (arith, pending_to-snoc w u done es h, member-snoc x u done, beq_iff x u, beq_iff u x)

pub pending-snoc :
    (u : Bytes) (done : List Bytes) (es : List (Bytes × Bytes))
    → member u done ≡ false
    → pending done es ≡ pending (done ++ u ∷ []) es + length (successors u es)
unfolding pending successors
pending-snoc u done [] h = omega arith
pending-snoc u done ((x, y) ∷ es) h =
    ground (arith, pending-snoc u done es h, member-snoc x u done, beq_iff x u, beq_iff u x)

abbrev pub Distinct : List Bytes → Type 0
Distinct [] = Unit
Distinct (x ∷ xs) = (member x xs ≡ false) × Distinct xs

pub Distinct-snoc :
    (u : Bytes) (xs : List Bytes) → Distinct xs → member u xs ≡ false → Distinct (xs ++ u ∷ [])
unfolding member
Distinct-snoc u [] d h = (refl, tt)
Distinct-snoc u (x ∷ xs) d h = (
  ground (arith, member-snoc x u xs, beq_iff x u, beq_iff u x),
  Distinct-snoc u xs d.1 (ground arith),
)
