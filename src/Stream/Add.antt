-- ===== src/Stream/Add.antt =====
-- `EventStream::addGraphNode` of src/backend/EventStream.cpp.
use casita.Prelude.{
  ℕ, ◌^◌, Bool, true, false, Option, none, some, List, [], ◌∷◌, ◌++◌, ◌==◌, if◌then◌else◌,
}
use mathlib.Core.Option
use casita.Node.Paradigm
use casita.Node.Defs.{Node, is_enter, has_paradigm}
use casita.Node.Order.{compare_less}
use casita.Stream.Defs.{
  EventStream, GraphData, value, out_of_bounds, get_last_paradigm_node, paradigm_indices,
}

-- The left and right links of all graph nodes, by identifier.
pub record Links : Type 0 where
  pub left : ℕ → Option ℕ
  pub right : ℕ → Option ℕ

-- `predNodes`, by paradigm; `none` is NULL.
abbrev pub PredNodes : Type 0
PredNodes = Option (ℕ → Option Node)

unfoldable pub put {ℓ} : {A : Type ℓ} → (ℕ → A) → ℕ → A → ℕ → A
put map k a j = if j == k then a else map j

unfoldable pub note_predecessor : PredNodes → ℕ → Option Node → PredNodes
unfolding put
note_predecessor none paradigm old = none
note_predecessor (some map) paradigm none = some map
note_predecessor (some map) paradigm (some n) = some (put map paradigm (some n))

-- Is the node before the last one?
unfoldable pub is_before : Node → Option Node → Bool
is_before n none = false
is_before n (some old) = compare_less n old

unfoldable pub set_data : Node → GraphData → GraphData
set_data n data' = record {
  first_node = elim data'.first_node [ none ↦ some n | some first ↦ some first ];
  last_node = some n;
}

-- The stream after the call, or as the exception leaves it.
pub data Added : Type 0 where
  added : EventStream → Links → PredNodes → Added
  thrown : EventStream → PredNodes → Added
  fault : Added

-- One round of the loop over the paradigms, of the paradigm 1 << i.
pub data Round : Type 0 where
  next : EventStream → PredNodes → Round
  refuse : EventStream → PredNodes → Round
  stray : Round

unfoldable pub add_paradigm : Node → ℕ → EventStream → PredNodes → Round
unfolding note_predecessor is_before set_data put
add_paradigm n i s pred = elim (get_last_paradigm_node s (2 ^ i)) [
  | out_of_bounds ↦ stray
  | value old ↦
      let pred' = note_predecessor pred (2 ^ i) old in
      if has_paradigm n (2 ^ i)
      then (if is_before n old
          then refuse s pred'
          else next (record s { graph_data = put s.graph_data i (set_data n (s.graph_data i)) })
              pred')
      else next s pred'
]

-- `setLinkRight( node )` on each unlinked MPI node.
unfoldable pub link_right : Node → List Node → (ℕ → Option ℕ) → ℕ → Option ℕ
unfolding put
link_right n [] right = right
link_right n (m ∷ rest) right = link_right n rest (put right m.id (some n.id))

unfoldable pub is_mpi_node : Node → Bool
is_mpi_node n = n.paradigm == Paradigm.mpi

-- The unlinked MPI nodes, with the new node if it is one.
unfoldable pub queue_mpi : Node → List Node → List Node
unfolding is_mpi_node
queue_mpi n unlinked = if is_mpi_node n then unlinked ++ n ∷ [] else unlinked

-- `lastNode` is the new node by the time it is read for the left link.
unfoldable pub link_left : Node → Option Node → (ℕ → Option ℕ) → ℕ → Option ℕ
unfolding is_mpi_node put
link_left n last_node left =
    if is_mpi_node n then put left n.id (Option.map (λ (l : Node). l.id) last_node) else left

-- What follows the loop.
unfoldable pub append_node : Node → EventStream → Links → PredNodes → Added
unfolding link_right link_left queue_mpi
append_node n s links pred =
    let last_node : Option Node = some n in
    let unlinked = queue_mpi n s.unlinked_mpi_nodes in
    added
      (record s {
        nodes = s.nodes ++ n ∷ [];
        last_node = last_node;
        unlinked_mpi_nodes = if is_enter n then [] else unlinked;
      })
      (record {
        left = link_left n last_node links.left;
        right = if is_enter n then link_right n unlinked links.right else links.right;
      })
      pred

unfoldable pub add_paradigms : Node → List ℕ → EventStream → Links → PredNodes → Added
add_paradigms n [] s links pred = append_node n s links pred
add_paradigms n (i ∷ rest) s links pred = elim (add_paradigm n i s pred) [
  | next s' pred' ↦ add_paradigms n rest s' links pred'
  | refuse s' pred' ↦ thrown s' pred'
  | stray ↦ fault
]

unfoldable pub add_graph_node : Node → EventStream → Links → PredNodes → Added
add_graph_node n s links pred =
    add_paradigms n paradigm_indices (record s { nodes_added = true }) links pred
