-- ===== src/Tests/GraphTests.antt =====
-- Edges and subgraphs of a graph of two nodes: src/backend/Graph.cpp.
use casita.Prelude.{◌≡◌, [], ◌∷◌, arith}
use casita.Node.Paradigm
use casita.Node.Flags.{has_flag}
use casita.Node.Defs.{has_paradigm}
use casita.Graph.Defs.{
  Graph, empty, add_node, add_edge, remove_edge, get_sub_graph, ends_at, starts_at,
}
use casita.Graph.Edges.{
  outs, between, IsMatched, empty-IsMatched, add_edge-IsMatched, between-remove_edge, into,
}
use casita.Graph.SubGraph.{IsDistinct, add_node-IsMatched, get_sub_graph_lem}
use casita.Tests.Data.{send_enter, send_leave, send_edge, short_edge}

abbrev two_nodes : Graph
two_nodes = add_node send_leave (add_node send_enter empty)

abbrev one_edge : Graph
one_edge = add_edge send_edge two_nodes

two_nodes-IsMatched : IsMatched two_nodes
two_nodes-IsMatched =
    add_node-IsMatched send_leave (add_node send_enter empty)
      (add_node-IsMatched send_enter empty empty-IsMatched)

add_edge-IsMatched_example : IsMatched one_edge
add_edge-IsMatched_example = add_edge-IsMatched send_edge two_nodes two_nodes-IsMatched

between-remove_edge_example :
    (between (remove_edge short_edge (add_edge short_edge one_edge)) 1 2 ≡ short_edge ∷ [])
    × (into (remove_edge short_edge (add_edge short_edge one_edge)) 1 2 ≡ short_edge ∷ [])
unfolding add_edge add_node empty ends_at starts_at
between-remove_edge_example = between-remove_edge short_edge (add_edge short_edge one_edge) 1 2

two_nodes-IsDistinct : IsDistinct two_nodes.nodes
unfolding empty add_node
two_nodes-IsDistinct = ((λ e. omega (arith, e), tt), (tt, tt))

get_sub_graph_lem_example :
    ((get_sub_graph Paradigm.mpi two_nodes).nodes ≡ send_enter ∷ send_leave ∷ [])
    × (outs (get_sub_graph Paradigm.mpi two_nodes) 1 ≡ [])
unfolding empty add_node has_paradigm has_flag
get_sub_graph_lem_example =
    get_sub_graph_lem Paradigm.mpi two_nodes 1 two_nodes-IsMatched two_nodes-IsDistinct
