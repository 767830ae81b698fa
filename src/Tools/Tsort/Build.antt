-- ===== src/Tools/Tsort/Build.antt =====
-- The graph of the words of `tsort`, and the order of its nodes.
use go_posix.Base.{
  suc, ◌+◌, ◌≤◌, ◌≡◌, ◌∙◌, refl, sym, ap, subst, Bool, true, false, ◌||◌, Bool-cases, inl, inr,
  List, [], ◌∷◌, ◌++◌, Bytes, beq, beq_iff, codes, arith, ◌==◌, if◌then◌else◌, length,
}
use go_posix.Tools.Tsort.{
  Degrees, Graph, member, add_node, add_pair, build, no_graph, sources, sort_graph,
}
use go_posix.Tools.Tsort.Counts.{pending_to, pending, times, Distinct, Distinct-snoc}
use go_posix.Tools.Tsort.Rounds.{Invariant}
use go_posix.Tools.Tsort.Order.{Reached, no_node, Drains, drain-Drains}

abbrev pub key : Bytes → Bytes → Bytes
key u v = u ++ codes "->" ++ v

-- Whether an edge has that key.
pub has_key : Bytes → List (Bytes × Bytes) → Bool
has_key k [] = false
has_key k ((x, y) ∷ es) = beq (key x y) k || has_key k es

pending_to-edge :
    (w u v : Bytes) (es : List (Bytes × Bytes))
    → pending_to w [] (es ++ (u, v) ∷ [])
      ≡ (if beq v w then pending_to w [] es + 1 else pending_to w [] es)
unfolding pending_to member
pending_to-edge w u v [] = ground arith
pending_to-edge w u v ((x, y) ∷ es) = ground (arith, pending_to-edge w u v es)

has_key-edge :
    (k u v : Bytes) (es : List (Bytes × Bytes))
    → has_key k (es ++ (u, v) ∷ []) ≡ (beq (key u v) k || has_key k es)
unfolding has_key
has_key-edge k u v [] = refl
has_key-edge k u v ((x, y) ∷ es) = rw (has_key-edge k u v es) (ground arith)

Distinct-add_node : (n : Bytes) (nodes : List Bytes) → Distinct nodes → Distinct (add_node n nodes)
unfolding add_node
Distinct-add_node n nodes d = elim (Bool-cases (member n nodes)) [
  | inl e ↦ rw e d
  | inr e ↦ rw e (Distinct-snoc n nodes d e)
]

-- The maps of the graph agree with its edges.
record Agrees (g : Graph) : Type 0 where
  distinct : Distinct g.nodes
  degrees : (w : Bytes) → g.in_degree w ≡ pending_to w [] g.edges
  keys : (k : Bytes) → member k g.edge_keys ≡ has_key k g.edges

no_graph-Agrees : Agrees no_graph
unfolding no_graph pending_to has_key member
no_graph-Agrees = record { distinct = tt; degrees = λ w. refl; keys = λ k. refl }

add_pair-Agrees : (g : Graph) (u v : Bytes) → Agrees g → Agrees (add_pair g u v)
unfolding add_pair
add_pair-Agrees g u v a =
    let nodes = Distinct-add_node v (add_node u g.nodes) (Distinct-add_node u g.nodes a.distinct) in
    elim (Bool-cases (beq u v || member (key u v) g.edge_keys)) [
      | inl e ↦ rw e (record { distinct = nodes; degrees = a.degrees; keys = a.keys })
      | inr e ↦ rw e (record {
        distinct = nodes;
        degrees = λ w. ground (arith, a.degrees w, pending_to-edge w u v g.edges);
        keys = λ k. ap (λ b. beq (key u v) k || b) (a.keys k) ∙ sym (has_key-edge k u v g.edges);
      })
    ]

build-Agrees : (g : Graph) (words : List Bytes) → Agrees g → Agrees (build g words)
unfolding build
build-Agrees g [] a = a
build-Agrees g (u ∷ []) a = a
build-Agrees g (u ∷ v ∷ words) a = build-Agrees (add_pair g u v) words (add_pair-Agrees g u v a)

-- Kahn's algorithm begins at the nodes without edges to them.
sources_lem :
    (degrees : Degrees) (nodes : List Bytes) (w : Bytes)
    → member w (sources degrees nodes) ≡ true
    → (degrees w ≡ 0) × (member w nodes ≡ true)
unfolding sources member
sources_lem degrees [] w h = cc
sources_lem degrees (n ∷ nodes) w h = elim (Bool-cases (degrees n == 0)) [
  | inl e ↦ elim (Bool-cases (beq n w)) [
    | inl same ↦
        let equal : n ≡ w = (beq_iff n w).0 same in
        (subst (λ x. degrees x ≡ 0) equal (ground arith), ground arith)
    | inr other ↦
        let behind : member w (sources degrees nodes) ≡ true = ground arith in
        let (zero_, known) = sources_lem degrees nodes w behind in (zero_, ground arith)
  ]
  | inr e ↦
      let behind : member w (sources degrees nodes) ≡ true = ground arith in
      let (zero_, known) = sources_lem degrees nodes w behind in (zero_, ground arith)
]

not_in_sources :
    (degrees : Degrees) (n : Bytes) (nodes : List Bytes)
    → member n nodes ≡ false
    → member n (sources degrees nodes) ≡ false
not_in_sources degrees n nodes h = elim (Bool-cases (member n (sources degrees nodes))) [
  | inl e ↦ let known = (sources_lem degrees nodes n e).1 in absurd cc
  | inr e ↦ e
]

member-sources :
    (degrees : Degrees) (nodes : List Bytes) (w : Bytes)
    → member w nodes ≡ true
    → degrees w ≡ 0
    → member w (sources degrees nodes) ≡ true
unfolding sources member
member-sources degrees [] w h z = h
member-sources degrees (n ∷ nodes) w h z = elim (Bool-cases (beq n w)) [
  | inl e ↦
      let same : n ≡ w = (beq_iff n w).0 e in
      let here : degrees n ≡ 0 = ap degrees same ∙ z in ground arith
  | inr e ↦ let behind = member-sources degrees nodes w (ground arith) z in ground arith
]

Distinct-sources :
    (degrees : Degrees) (nodes : List Bytes) → Distinct nodes → Distinct (sources degrees nodes)
unfolding sources
Distinct-sources degrees [] d = tt
Distinct-sources degrees (n ∷ nodes) d = elim (Bool-cases (degrees n == 0)) [
  | inl e ↦ rw e (not_in_sources degrees n nodes d.0, Distinct-sources degrees nodes d.1)
  | inr e ↦ rw e (Distinct-sources degrees nodes d.1)
]

length-sources :
    (degrees : Degrees) (nodes : List Bytes) → length (sources degrees nodes) ≤ length nodes
unfolding sources
length-sources degrees [] = omega arith
length-sources degrees (n ∷ nodes) = ground (arith, length-sources degrees nodes)

pending-none : (es : List (Bytes × Bytes)) → pending [] es ≡ length es
unfolding pending member
pending-none [] = refl
pending-none ((x, y) ∷ es) = ap suc (pending-none es)

start-Invariant :
    (g : Graph) → Agrees g → Invariant g.edges g.in_degree (sources g.in_degree g.nodes) [] []
unfolding times member
start-Invariant g a = record {
  counted = λ w. omega (arith, a.degrees w);
  queued = λ w h. (sources_lem g.in_degree g.nodes w h).0;
  finished = λ w h. cc;
  fresh = λ w h. refl;
  distinct = Distinct-sources g.in_degree g.nodes a.distinct;
  distinct_done = tt;
}

start-Reached : (g : Graph) → Reached g.nodes g.in_degree (sources g.in_degree g.nodes) []
unfolding member
start-Reached g w h z = ground (arith, member-sources g.in_degree g.nodes w h z)

-- Each pair of different words has an edge with its key.
abbrev pub Covered : List (Bytes × Bytes) → List Bytes → Type 0
Covered es [] = Unit
Covered es (u ∷ []) = Unit
Covered es (u ∷ v ∷ words) = ((beq u v || has_key (key u v) es) ≡ true) × Covered es words

add_pair-has_key :
    (k : Bytes) (g : Graph) (u v : Bytes)
    → has_key k g.edges ≡ true
    → has_key k (add_pair g u v).edges ≡ true
unfolding add_pair
add_pair-has_key k g u v h = elim (Bool-cases (beq u v || member (key u v) g.edge_keys)) [
  | inl e ↦ rw e h
  | inr e ↦ rw e (ground (arith, h, has_key-edge k u v g.edges))
]

build-has_key :
    (k : Bytes) (g : Graph) (words : List Bytes)
    → has_key k g.edges ≡ true
    → has_key k (build g words).edges ≡ true
unfolding build
build-has_key k g [] h = h
build-has_key k g (u ∷ []) h = h
build-has_key k g (u ∷ v ∷ words) h =
    build-has_key k (add_pair g u v) words (add_pair-has_key k g u v h)

add_pair-pair :
    (g : Graph) (u v : Bytes)
    → Agrees g
    → (beq u v || has_key (key u v) (add_pair g u v).edges) ≡ true
unfolding add_pair
add_pair-pair g u v a = elim (Bool-cases (beq u v || member (key u v) g.edge_keys)) [
  | inl e ↦ rw e (rw (sym (a.keys (key u v))) e)
  | inr e ↦ rw e (ground (arith, has_key-edge (key u v) u v g.edges, beq_iff (key u v) (key u v)))
]

or_later : (b c d : Bool) → (b || c) ≡ true → (c ≡ true → d ≡ true) → (b || d) ≡ true
or_later true c d h f = refl
or_later false c d h f = f h

build-Covered : (g : Graph) (words : List Bytes) → Agrees g → Covered (build g words).edges words
unfolding build
build-Covered g [] a = tt
build-Covered g (u ∷ []) a = tt
build-Covered g (u ∷ v ∷ words) a =
    let here = add_pair-pair g u v a in
    (
      or_later (beq u v) _ _ here (build-has_key (key u v) (add_pair g u v) words),
      build-Covered (add_pair g u v) words (add_pair-Agrees g u v a),
    )

-- The graph of any words has an edge with the key of each pair of different words. The loop returns on
-- it; each node of the result stands there once, behind the ends of all edges to it, and a node that is
-- not there waits for an edge from one that is not there either.
pub sort_graph-Drains :
    (words : List Bytes)
    → Covered (build no_graph words).edges words
      × Drains
          (build no_graph words).edges
          (build no_graph words).nodes
          (sort_graph (build no_graph words))
unfolding sort_graph
sort_graph-Drains words =
    let g = build no_graph words in
    let a = build-Agrees no_graph words no_graph-Agrees in
    (
      build-Covered no_graph words no_graph-Agrees,
      drain-Drains g.edges g.nodes (length g.nodes + length g.edges) g.in_degree
          (sources g.in_degree g.nodes) [] (start-Invariant g a) (start-Reached g) no_node
          (omega (arith, length-sources g.in_degree g.nodes, pending-none g.edges)),
    )
