-- ===== src/Graph/SubGraph.antt =====
-- `Graph::getSubGraph` of src/backend/Graph.cpp keeps the nodes of a paradigm and the edges of that
-- paradigm between them.
use mathlib.Core.List.{append-nil, append_assoc}
use casita.Prelude.{
  ℕ, ◌≡◌, ◌≢◌, refl, sym, subst, inl, inr, Bool, false, List, [], ◌∷◌, ◌++◌, ◌&&◌, ◌==◌,
  if◌then◌else◌, arith, All, Pairwise, keep_if, Bool-cases,
}
use casita.Node.Defs.{Node, has_paradigm}
use casita.Edge.Defs.{Edge, has_edge_type}
use casita.Graph.Defs.{Graph, empty, add_node, add_edge, add_edges_of, add_nodes_of, get_sub_graph}
use casita.Graph.Edges.{IsMatched, outs, add_edge-IsMatched, empty-IsMatched, outs-add_edge}

-- The edges of the paradigm that lead to a node of the paradigm.
abbrev pub is_kept : ℕ → Edge → Bool
is_kept paradigm e = has_edge_type e paradigm && has_paradigm e.end_node paradigm

add_edges_of-IsMatched :
    (p : ℕ) (es : List Edge) (g : Graph) → IsMatched g → IsMatched (add_edges_of p es g)
unfolding add_edges_of
add_edges_of-IsMatched p [] g h = h
add_edges_of-IsMatched p (e ∷ es) g h = elim (Bool-cases (is_kept p e)) [
  | inl t ↦ rw t (add_edges_of-IsMatched p es (add_edge e g) (add_edge-IsMatched e g h))
  | inr t ↦ rw t (add_edges_of-IsMatched p es g h)
]

pub add_node-IsMatched : (n : Node) (g : Graph) → IsMatched g → IsMatched (add_node n g)
unfolding add_node
add_node-IsMatched n g h = record { matched = h.matched; own_out = h.own_out; own_in = h.own_in }

add_nodes_of-IsMatched :
    (p : ℕ) (g : Graph) (ns : List Node) (sub : Graph)
    → IsMatched sub
    → IsMatched (add_nodes_of p g ns sub)
unfolding add_nodes_of
add_nodes_of-IsMatched p g [] sub h = h
add_nodes_of-IsMatched p g (n ∷ ns) sub h = elim (Bool-cases (has_paradigm n p)) [
  | inl t ↦ rw t (
      add_nodes_of-IsMatched p g ns _
        (add_edges_of-IsMatched p (outs g n.id) (add_node n sub) (add_node-IsMatched n sub h)))
  | inr t ↦ rw t (add_nodes_of-IsMatched p g ns sub h)
]

-- The two maps of a subgraph are matched, whatever the graph is.
pub get_sub_graph-IsMatched : (p : ℕ) (g : Graph) → IsMatched (get_sub_graph p g)
unfolding get_sub_graph
get_sub_graph-IsMatched p g = add_nodes_of-IsMatched p g g.nodes empty empty-IsMatched

nodes-add_edges_of : (p : ℕ) (es : List Edge) (g : Graph) → (add_edges_of p es g).nodes ≡ g.nodes
unfolding add_edges_of
nodes-add_edges_of p [] g = refl
nodes-add_edges_of p (e ∷ es) g =
    ground
      (arith, nodes-add_edges_of p es (add_edge e g), nodes-add_edges_of p es g, nodes-add_edge)
  where
    nodes-add_edge : (add_edge e g).nodes ≡ g.nodes
    nodes-add_edge = unfold add_edge in refl

nodes-add_node : (n : Node) (g : Graph) → (add_node n g).nodes ≡ g.nodes ++ n ∷ []
unfolding add_node
nodes-add_node n g = refl

nodes-add_nodes_of :
    (p : ℕ) (g : Graph) (ns : List Node) (sub : Graph)
    → (add_nodes_of p g ns sub).nodes ≡ sub.nodes ++ keep_if (λ n. has_paradigm n p) ns
unfolding add_nodes_of
nodes-add_nodes_of p g [] sub = sym (append-nil sub.nodes)
nodes-add_nodes_of p g (n ∷ ns) sub = elim (Bool-cases (has_paradigm n p)) [
  | inl t ↦ ground (
    arith,
    nodes-add_nodes_of p g ns (add_edges_of p (outs g n.id) (add_node n sub)),
    nodes-add_edges_of p (outs g n.id) (add_node n sub),
    nodes-add_node n sub,
    append_assoc sub.nodes (n ∷ []) (keep_if (λ n. has_paradigm n p) ns),
  )
  | inr t ↦ ground (arith, nodes-add_nodes_of p g ns sub)
]

outs-add_edges_of :
    (p w u : ℕ) (es : List Edge) (g : Graph)
    → All (λ e. e.start_node.id ≡ w) es
    → outs (add_edges_of p es g) u
      ≡ (if w == u then outs g u ++ keep_if (is_kept p) es else outs g u)
unfolding add_edges_of
outs-add_edges_of p w u [] g h = ground (arith, append-nil (outs g u))
outs-add_edges_of p w u (e ∷ es) g h = ground (
  arith,
  outs-add_edges_of p w u es (add_edge e g) h.1,
  outs-add_edges_of p w u es g h.1,
  outs-add_edge e g u,
  append_assoc (outs g u) (e ∷ []) (keep_if (is_kept p) es),
  h.0,
)

-- A node of the list has the identifier and the paradigm.
abbrev pub holds : ℕ → ℕ → List Node → Bool
holds p u [] = false
holds p u (n ∷ ns) = if n.id == u then has_paradigm n p else holds p u ns

holds_none : (p u : ℕ) (ns : List Node) → All (λ m. u ≢ m.id) ns → holds p u ns ≡ false
holds_none p u [] h = refl
holds_none p u (n ∷ ns) h = ground (arith, holds_none p u ns h.1, h.0)

-- No two nodes share an identifier.
abbrev pub IsDistinct : List Node → Type 0
IsDistinct = Pairwise (λ n m. n.id ≢ m.id)

outs-add_node : (n : Node) (g : Graph) (u : ℕ) → outs (add_node n g) u ≡ outs g u
unfolding add_node
outs-add_node n g u = refl

outs-add_nodes_of :
    (p : ℕ) (g : Graph) (ns : List Node) (sub : Graph) (u : ℕ)
    → IsMatched g
    → IsDistinct ns
    → outs (add_nodes_of p g ns sub) u
      ≡ outs sub u ++ (if holds p u ns then keep_if (is_kept p) (outs g u) else [])
unfolding add_nodes_of
outs-add_nodes_of p g [] sub u m d = sym (append-nil (outs sub u))
outs-add_nodes_of p g (n ∷ ns) sub u m d = elim (Bool-cases (has_paradigm n p)) [
  | inl t ↦ rw t (
      ground (
        arith,
        outs-add_nodes_of p g ns (add_edges_of p (outs g n.id) (add_node n sub)) u m d.1,
        outs-add_edges_of p n.id u (outs g n.id) (add_node n sub) (m.own_out n.id),
        outs-add_node n sub u,
        λ (e : n.id ≡ u). holds_none p u ns (subst (λ k. All (λ m. k ≢ m.id) ns) e d.0),
        append-nil (outs sub u ++ keep_if (is_kept p) (outs g u)),
      ))
  | inr t ↦ rw t (
      ground (
        arith,
        outs-add_nodes_of p g ns sub u m d.1,
        λ (e : n.id ≡ u). holds_none p u ns (subst (λ k. All (λ m. k ≢ m.id) ns) e d.0),
      ))
]

-- Of a graph with matched maps and distinct nodes the subgraph of a paradigm has the nodes of that
-- paradigm in their order, and from each of them, and from no other, the out-edges of that paradigm
-- to nodes of that paradigm, in their order.
pub get_sub_graph_lem :
    (p : ℕ) (g : Graph) (u : ℕ)
    → IsMatched g
    → IsDistinct g.nodes
    → ((get_sub_graph p g).nodes ≡ keep_if (λ n. has_paradigm n p) g.nodes)
      × (outs (get_sub_graph p g) u
          ≡ (if holds p u g.nodes then keep_if (is_kept p) (outs g u) else []))
unfolding get_sub_graph empty
get_sub_graph_lem p g u m d =
    (nodes-add_nodes_of p g g.nodes empty, outs-add_nodes_of p g g.nodes empty u m d)
