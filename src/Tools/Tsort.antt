-- ===== src/Tools/Tsort.antt =====
-- pkg/tsort/tsort.go: the graph of the words and Kahn's algorithm.
-- A map from words is a function or the list of its pairs in the order of insertion.
mod Counts
mod Rounds
mod Order
mod Build
mod Tests
use go_posix.Base.{
  ℕ, zero, suc, ◌+◌, ◌-◌, ◌%◌, Bool, true, false, not, ◌&&◌, ◌||◌, Option, none, some, List, [],
  ◌∷◌, ◌++◌, Bytes, beq, codes, ltb, ◌==◌, if◌then◌else◌, length,
}

abbrev pub Degrees : Type 0
Degrees = Bytes → ℕ

pub record Graph : Type 0 where
  pub nodes : List Bytes
  pub edge_keys : List Bytes
  pub edges : List (Bytes × Bytes)
  pub in_degree : Degrees

-- Whether a word is among those.
pub member : Bytes → List Bytes → Bool
member w [] = false
member w (x ∷ xs) = beq x w || member w xs

pub add_node : Bytes → List Bytes → List Bytes
unfolding member
add_node n nodes = if member n nodes then nodes else nodes ++ n ∷ []

pub no_graph : Graph
no_graph = record { nodes = []; edge_keys = []; edges = []; in_degree = λ w. 0 }

-- One round of the loop over the pairs of words.
pub add_pair : Graph → Bytes → Bytes → Graph
unfolding add_node member
add_pair g u v =
    let nodes = add_node v (add_node u g.nodes) in
    let key = u ++ codes "->" ++ v in
    if beq u v || member key g.edge_keys then record g { nodes = nodes } else record {
      nodes = nodes;
      edge_keys = key ∷ g.edge_keys;
      edges = g.edges ++ (u, v) ∷ [];
      in_degree = λ w. if beq v w then g.in_degree w + 1 else g.in_degree w;
    }

pub build : Graph → List Bytes → Graph
unfolding add_pair
build g [] = g
build g (u ∷ []) = g
build g (u ∷ v ∷ words) = build (add_pair g u v) words

-- `adj[u]`
pub successors : Bytes → List (Bytes × Bytes) → List Bytes
successors u [] = []
successors u ((x, y) ∷ es) = let rest = successors u es in if beq x u then y ∷ rest else rest

pub sources : Degrees → List Bytes → List Bytes
sources degrees [] = []
sources degrees (n ∷ nodes) =
    let rest = sources degrees nodes in if degrees n == 0 then n ∷ rest else rest

-- The loop over `adj[u]`.
pub relax : Degrees → List Bytes → List Bytes → Degrees × List Bytes
relax degrees queue [] = (degrees, queue)
relax degrees queue (v ∷ vs) =
    let less = λ (w : Bytes). if beq v w then degrees w - 1 else degrees w in
    relax less (if less v == 0 then queue ++ v ∷ [] else queue) vs

-- The loop over the queue, `none` when it runs out of fuel.
pub drain : ℕ → List (Bytes × Bytes) → Degrees → List Bytes → List Bytes → Option (List Bytes)
unfolding successors relax
drain fuel edges degrees [] result = some result
drain zero edges degrees (u ∷ queue) result = none
drain (suc fuel) edges degrees (u ∷ queue) result =
    let (degrees', queue') = relax degrees queue (successors u edges) in
    drain fuel edges degrees' queue' (result ++ u ∷ [])

pub sort_graph : Graph → Option (List Bytes)
unfolding drain sources
sort_graph g =
    drain (length g.nodes + length g.edges) g.edges g.in_degree (sources g.in_degree g.nodes) []

pub data Report : Type 0 where
  odd_words : Report
  sorted : List Bytes → Report
  cycle_detected : List Bytes → Report
  out_of_fuel : Report

-- `run` on the words of its input.
pub run : List Bytes → Report
unfolding build no_graph sort_graph
run words =
    let g = build no_graph words in
    if length words % 2 == 0
    then (elim (sort_graph g) [
      | some result ↦
          if ltb (length result) (length g.nodes) then cycle_detected result else sorted result
      | none ↦ out_of_fuel
    ])
    else odd_words
