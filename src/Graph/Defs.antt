-- ===== src/Graph/Defs.antt =====
-- class Graph of src/backend/Graph.cpp: the vector of nodes, and the edge lists of each node by its
-- identifier. `none` is a node that the map does not hold.
use casita.Prelude.{
  ℕ, Bool, not, ◌&&◌, Option, none, some, List, [], ◌∷◌, ◌++◌, ◌==◌, ltb, if◌then◌else◌,
}
use casita.Node.Defs.{Node, has_paradigm}
use casita.Edge.Defs.{Edge, has_edge_type}

abbrev pub NodeEdges : Type 0
NodeEdges = ℕ → Option (List Edge)

pub record Graph : Type 0 where
  pub nodes : List Node
  pub in_edges : NodeEdges
  pub out_edges : NodeEdges

unfoldable pub empty : Graph
empty = record { nodes = []; in_edges = λ n. none; out_edges = λ n. none }

unfoldable pub add_node : Node → Graph → Graph
add_node n g = record g { nodes = g.nodes ++ n ∷ [] }

-- `getInEdgesPtr` and `getOutEdges`: NULL for a node with no entry.
unfoldable pub get_in_edges_ptr : Graph → ℕ → Option (List Edge)
get_in_edges_ptr g n = g.in_edges n

unfoldable pub get_out_edges : Graph → ℕ → Option (List Edge)
get_out_edges g n = g.out_edges n

-- `getInEdges` throws where `getInEdgesPtr` returns NULL.
pub data Thrown {ℓ} (A : Type ℓ) : Type ℓ where
  returned : A → Thrown A
  thrown : Thrown A

unfoldable pub get_in_edges : Graph → ℕ → Thrown (List Edge)
get_in_edges g n = elim (g.in_edges n) [ none ↦ thrown | some edges ↦ returned edges ]

-- `map[node]`: a missing entry counts as an empty list.
abbrev pub or_empty : Option (List Edge) → List Edge
or_empty none = []
or_empty (some edges) = edges

unfoldable pub update : NodeEdges → ℕ → List Edge → NodeEdges
update map n edges k = if n == k then some edges else map k

unfoldable pub add_edge : Edge → Graph → Graph
unfolding update
add_edge e g = record g {
  in_edges = update g.in_edges e.end_node.id (or_empty (g.in_edges e.end_node.id) ++ e ∷ []);
  out_edges = update g.out_edges e.start_node.id (or_empty (g.out_edges e.start_node.id) ++ e ∷ []);
}

unfoldable pub ends_at : ℕ → Edge → Bool
ends_at n e = e.end_node.id == n

unfoldable pub starts_at : ℕ → Edge → Bool
starts_at n e = e.start_node.id == n

-- Erases the first edge that passes the test.
unfoldable pub erase_first : (Edge → Bool) → List Edge → List Edge
erase_first p [] = []
erase_first p (e ∷ edges) = if p e then edges else e ∷ erase_first p edges

unfoldable pub remove_edge : Edge → Graph → Graph
unfolding update erase_first ends_at starts_at
remove_edge e g =
    let start = e.start_node.id in
    let end = e.end_node.id in
    record g {
      out_edges =
          update g.out_edges start (erase_first (ends_at end) (or_empty (g.out_edges start)));
      in_edges = update g.in_edges end (erase_first (starts_at start) (or_empty (g.in_edges end)));
    }

-- The inner loop of `getSubGraph`.
unfoldable pub add_edges_of : ℕ → List Edge → Graph → Graph
unfolding add_edge
add_edges_of paradigm [] sub = sub
add_edges_of paradigm (e ∷ edges) sub =
    add_edges_of paradigm edges
      (if has_edge_type e paradigm && has_paradigm e.end_node paradigm then add_edge e sub else sub)

unfoldable pub add_nodes_of : ℕ → Graph → List Node → Graph → Graph
unfolding add_edges_of add_node
add_nodes_of paradigm g [] sub = sub
add_nodes_of paradigm g (n ∷ nodes) sub = add_nodes_of paradigm g nodes (
    if has_paradigm n paradigm
    then add_edges_of paradigm (or_empty (g.out_edges n.id)) (add_node n sub)
    else sub)

unfoldable pub get_sub_graph : ℕ → Graph → Graph
unfolding add_nodes_of empty
get_sub_graph paradigm g = add_nodes_of paradigm g g.nodes empty

-- The order of `compareDistancesLess`, where `operator[]` reads a missing distance as 0.
unfoldable pub compare_distances_less : (ℕ → ℕ) → Node → Node → Bool
compare_distances_less distance n1 n2 =
    if not (distance n1.id == distance n2.id)
    then ltb (distance n1.id) (distance n2.id)
    else ltb n1.id n2.id
