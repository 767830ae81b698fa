-- ===== src/Tools/Tsort/Tests.antt =====
-- `tsort` on a few words.
use go_posix.Base.{◌≡◌, refl, List, [], ◌∷◌, Bytes, beq, codes}
use go_posix.Tools.Tsort.Order.{Drains}
use go_posix.Tools.Tsort.Build.{Covered, sort_graph-Drains}
use go_posix.Tools.Tsort.{
  member, add_node, no_graph, add_pair, build, successors, sources, relax, drain, sort_graph,
  sorted, cycle_detected, run,
}

-- Three edges, and a word of its own.
abbrev words : List Bytes
words =
    codes "b"
    ∷ codes "c"
    ∷ codes "a"
    ∷ codes "b"
    ∷ codes "a"
    ∷ codes "c"
    ∷ codes "d"
    ∷ codes "d"
    ∷ []

run_words : run words ≡ sorted (codes "a" ∷ codes "d" ∷ codes "b" ∷ codes "c" ∷ [])
unfolding run build no_graph add_pair add_node member sort_graph sources drain successors relax beq
run_words = refl

run_cycle :
    run (codes "a" ∷ codes "b" ∷ codes "b" ∷ codes "a" ∷ codes "c" ∷ codes "a" ∷ [])
    ≡ cycle_detected (codes "c" ∷ [])
unfolding run build no_graph add_pair add_node member sort_graph sources drain successors relax beq
run_cycle = refl

sort_graph-Drains_example :
    Covered (build no_graph words).edges words
    × Drains
        (build no_graph words).edges
        (build no_graph words).nodes
        (sort_graph (build no_graph words))
sort_graph-Drains_example = sort_graph-Drains words
