-- ===== src/Graph/Chain.antt =====
-- What a critical path is: `Graph::getCriticalPath` of src/backend/Graph.cpp.
use casita.Prelude.{
  ℕ, ◌≤◌, ◌<◌, ◌≡◌, ◌⊎◌, Bool, true, false, some, List, [], ◌∷◌, length, get_elem?, All, Pairwise,
}
use casita.Node.Defs.{Node, u64}
use casita.Node.Order.{compare_less}
use casita.Edge.Defs.{Edge, get_weight, is_reverse_edge}
use casita.Graph.Defs.{Graph}
use casita.Graph.CriticalPath.{direct_predecessor, Walk, path}
use casita.Graph.Edges.{ins}

abbrev pub IsIn : Graph → Node → Type 0
IsIn g n = (j : ℕ) × (get_elem? g.nodes j ≡ some n)

module _ (has_caller : Node → Bool) (g : Graph) where
  -- `p` is the start of an in-edge of `c` that does not block, of the largest weight among these.
  pub record ByEdge (p c : Node) : Type 0 where
    pub position : ℕ
    pub edge : Edge
    pub listed : get_elem? (ins g c.id) position ≡ some edge
    pub starts : edge.start_node ≡ p
    pub free : edge.blocking ≡ false
    pub heaviest : All (λ f. f.blocking ≡ false → get_weight f ≤ get_weight edge) (ins g c.id)

  -- No in-edge of `c` can be used: each blocks or has the weight 0.
  abbrev pub IsStuck : Node → Type 0
  IsStuck c = All (λ f. f.blocking ≡ false → get_weight f ≤ 0) (ins g c.id)

  -- The step from `c` to `p`: along such an edge, or to the node in front where there is none.
  abbrev pub Link : Node → Node → Type 0
  Link p c = ByEdge p c ⊎ (IsStuck c × (direct_predecessor has_caller g.nodes c ≡ some p))

  -- Each node of the list is reached from the next one by a step, the last one is `end`.
  abbrev pub Chain : Node → Node → List Node → Type 0
  Chain end c [] = c ≡ end
  Chain end c (n ∷ rest) = Link c n × Chain end n rest

  -- The in-edges come from nodes of the vector that are of lower rank and not later in time, and
  -- the ranks rise along the vector. A node behind `start` with no usable in-edge has a node in
  -- front of it.
  pub record IsForward (rank : ℕ → ℕ) (start : Node) : Type 0 where
    pub forward :
        (n : ℕ)
        → All
            (λ e.
              (is_reverse_edge e ≡ false) × (rank e.start_node.id < rank n) × IsIn g e.start_node)
            (ins g n)
    pub ordered : Pairwise (λ x y. rank x.id < rank y.id) g.nodes
    pub small : length g.nodes < u64
    pub way :
        (c : Node)
        → IsIn g c
        → compare_less start c ≡ true
        → IsStuck c
        → (p : Node) × (direct_predecessor has_caller g.nodes c ≡ some p)

  -- The path starts with `start` and goes on with a chain to `end`. The chain hangs on the node
  -- where the walk stopped, which is no longer behind `start`.
  abbrev pub Reaches : Node → Node → Walk → Type 0
  Reaches start end w =
      (c : Node) × (nodes : List Node) × (w ≡ path (start ∷ nodes))
      × (compare_less start c ≡ false)
      × Chain end c nodes
