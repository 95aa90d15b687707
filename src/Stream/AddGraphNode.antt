-- ===== src/Stream/AddGraphNode.antt =====
-- The theorems on `EventStream::addGraphNode` of src/backend/EventStream.cpp.
use casita.Prelude.{
  ℕ, zero, suc, ◌<◌, ◌≡◌, ◌≢◌, refl, Bool, true, false, ◌&&◌, ◌||◌, some, List, [], ◌∷◌, ◌++◌, ◌==◌,
  if◌then◌else◌, arith, All,
}
use casita.Node.Defs.{Node, is_enter}
use casita.Stream.Defs.{EventStream, paradigm_indices}
use casita.Stream.Add.{
  Links, PredNodes, Added, added, thrown, fault, append_node, add_graph_node, queue_mpi,
  is_mpi_node,
}
use casita.Stream.AddLaws.{is_refused, mem, Outcome, accepts, refuses, add_paradigms-Outcome}
use casita.Stream.Consistent.{IsConsistent, appended-IsConsistent}

add_graph_node-Outcome :
    (n : Node) (s : EventStream) (links : Links) (pred : PredNodes)
    → Outcome n paradigm_indices
        (record s { nodes_added = true })
        links
        (add_graph_node n s links pred)
unfolding add_graph_node
add_graph_node-Outcome n s links pred =
    add_paradigms-Outcome n paradigm_indices (record s { nodes_added = true }) links pred
      (omega arith) (omega arith)

mem_indices : (j : ℕ) → j < 4 → mem j paradigm_indices ≡ true
mem_indices j h = ground arith

All_indices : (P : ℕ → Type 0) (i : ℕ) → i < 4 → All P paradigm_indices → P i
All_indices P zero h a = a.0
All_indices P (suc zero) h a = a.1.0
All_indices P (suc (suc zero)) h a = a.1.1.0
All_indices P (suc (suc (suc zero))) h a = a.1.1.1.0
All_indices P (suc (suc (suc (suc i)))) h a = absurd (omega arith)

-- The node has one of the four paradigms and is before the last node of that paradigm.
abbrev pub refused_any : Node → EventStream → Bool
refused_any n s = is_refused n s 0 || is_refused n s 1 || is_refused n s 2 || is_refused n s 3

-- A node that is not refused is appended and the invariant holds; on a refusal the exception leaves
-- the nodes, the last node and the unlinked nodes as they were.
abbrev pub Ends : Node → EventStream → Bool → Added → Type 0
Ends n s false (added s' links pred) = IsConsistent s' × (s'.nodes ≡ s.nodes ++ n ∷ [])
Ends n s true (thrown s' pred) =
    (s'.nodes ≡ s.nodes)
    × (s'.last_node ≡ s.last_node)
    × (s'.unlinked_mpi_nodes ≡ s.unlinked_mpi_nodes)
Ends _ _ _ _ = ⊥

Outcome-Ends :
    (n : Node) (s : EventStream) (links : Links) (a : Added)
    → IsConsistent s
    → n.stream_id ≡ s.id
    → All (λ m. m.id ≢ n.id) s.nodes
    → Outcome n paradigm_indices (record s { nodes_added = true }) links a
    → Ends n s (refused_any n s) a
unfolding append_node
Outcome-Ends n s links a c own fresh (accepts table pred t r) =
    let accepted : refused_any n s ≡ false = ground arith in
    rw accepted (
      appended-IsConsistent n s c own fresh table
          (if is_enter n then [] else queue_mpi n s.unlinked_mpi_nodes)
          (λ j h. ground (arith, t j, mem_indices j h))
          (λ i h. All_indices (λ k. is_refused n s k ≡ false) i h r),
      refl,
    )
Outcome-Ends n s links a c own fresh (refuses table pred i m r) =
    let refused : refused_any n s ≡ true = ground arith in rw refused (refl, refl, refl)

-- On a stream in its invariant, `addGraphNode` of a new node of that stream refuses the node by an
-- exception exactly if it is before the last node of a paradigm it has. Otherwise it appends the
-- node, and the invariant holds again: sorted nodes in each paradigm, with the first and the last
-- of them in the table.
pub add_graph_node-Ends :
    (n : Node) (s : EventStream) (links : Links) (pred : PredNodes)
    → IsConsistent s
    → n.stream_id ≡ s.id
    → All (λ m. m.id ≢ n.id) s.nodes
    → Ends n s (refused_any n s) (add_graph_node n s links pred)
add_graph_node-Ends n s links pred c own fresh =
    Outcome-Ends n s links (add_graph_node n s links pred) c own fresh
      (add_graph_node-Outcome n s links pred)

-- A node of the list has the identifier.
abbrev pub has_member : ℕ → List Node → Bool
has_member k [] = false
has_member k (m ∷ ms) = if m.id == k then true else has_member k ms

-- The links after a successful call: the right link of every unlinked node is an enter node that is
-- added, and the left link of an MPI node is the node itself. All other links stay.
abbrev pub Linked : Node → EventStream → Links → ℕ → Added → Type 0
Linked n s links k (added s' links' pred) =
    (links'.left k ≡ (if is_mpi_node n && n.id == k then some n.id else links.left k))
    × (links'.right k ≡ (
        if is_enter n && has_member k (queue_mpi n s.unlinked_mpi_nodes)
        then some n.id
        else links.right k))
Linked n s links k (thrown s' pred) = Unit
Linked n s links k fault = ⊥
