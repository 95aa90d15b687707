-- ===== src/Engine/Nodes.antt =====
-- `GraphEngine::addNewGraphNodeInternal` of src/backend/GraphEngine.cpp: a new node gets its place in
-- its stream, its region, and edges from and to its neighbours.
use casita.Prelude.{
  ℕ, ◌^◌, Bool, true, false, not, ◌&&◌, Option, none, some, List, [], ◌∷◌, ◌==◌, ltb, if◌then◌else◌,
  bit_and,
}
use casita.Node.Paradigm
use casita.Node.Defs.{Node, is_enter, is_leave}
use casita.Node.Kinds.{is_offload_kernel}
use casita.Node.Order.{compare_less}
use casita.Graph.Defs.{Graph, remove_edge}
use casita.Stream.Defs.{
  EventStream, paradigm_indices, get_last_paradigm_node, value, out_of_bounds, is_device_stream,
}
use casita.Stream.Add.{Links, Added, added, thrown, fault, add_graph_node, put}
use casita.Stream.Insert.{Inserted, inserted, invalid_iterator, insert_graph_node}
use casita.Engine.Defs.{
  Engine, Pair, Result, ok, raised, undefined, ◌>>=◌, link, get_edge, update_stack, is_wait,
}

abbrev pub NodeMap : Type 0
NodeMap = ℕ → Option Node

abbrev no_nodes : NodeMap
no_nodes paradigm = none

-- The stream with the node, the links, and the predecessors and successors by paradigm.
pub record Taken : Type 0 where
  pub stream : EventStream
  pub links : Links
  pub pred : NodeMap
  pub next : NodeMap

-- The last node of the stream is missing or before the node.
unfoldable pub comes_last : Node → EventStream → Bool
comes_last n s = elim s.last_node [ none ↦ true | some last ↦ compare_less last n ]

unfoldable pub from_added : Added → Result Taken
from_added (added s links pred) = ok (record {
  stream = s;
  links = links;
  pred = elim pred [ none ↦ no_nodes | some map ↦ map ];
  next = no_nodes;
})
from_added (thrown s pred) = raised
from_added fault = undefined

unfoldable pub from_inserted : Links → Inserted → Result Taken
from_inserted links (inserted s pred next) =
    ok (record { stream = s; links = links; pred = pred; next = next })
from_inserted links invalid_iterator = undefined

unfoldable pub take_in : Node → EventStream → Links → Result Taken
unfolding comes_last from_added from_inserted
take_in n s links =
    if not (n.stream_id == s.id)
    then raised
    else if comes_last n s
    then from_added (add_graph_node n s links (some no_nodes))
    else from_inserted links (insert_graph_node n s no_nodes no_nodes)

-- The latest predecessor and the earliest successor of all paradigms.
unfoldable pub later : Option Node → Option Node → Option Node
later found none = found
later none (some n) = some n
later (some old) (some n) = if compare_less old n then some n else some old

unfoldable pub earlier : Option Node → Option Node → Option Node
earlier found none = found
earlier none (some n) = some n
earlier (some old) (some n) = if compare_less n old then some n else some old

unfoldable pub fold_paradigms :
    (Option Node → Option Node → Option Node) → NodeMap → Option Node → List ℕ → Option Node
fold_paradigms choose map found [] = found
fold_paradigms choose map found (i ∷ rest) =
    fold_paradigms choose map (choose found (map (2 ^ i))) rest

unfoldable pub direct_predecessor_of : NodeMap → Option Node
unfolding later fold_paradigms
direct_predecessor_of pred = fold_paradigms later pred none paradigm_indices

unfoldable pub direct_successor_of : NodeMap → Option Node
unfolding earlier fold_paradigms
direct_successor_of next = fold_paradigms earlier next none paradigm_indices

-- `directPredLinked` and `directSuccLinked` with the graph.
pub record Linking : Type 0 where
  pub graph : Graph
  pub pred_linked : Bool
  pub succ_linked : Bool

unfoldable pub same_node_as : Option Node → Node → Bool
same_node_as none n = false
same_node_as (some m) n = m.id == n.id

-- The edge to the successor of a paradigm replaces the one from the predecessor.
unfoldable pub link_successor :
    Node → Node → ℕ → Option Node → Option Node → Linking → Result Linking
unfolding link get_edge same_node_as
link_successor n pred paradigm direct_succ none l = ok l
link_successor n pred paradigm none (some succ) l = ok l
link_successor n pred paradigm (some direct) (some succ) l = elim (get_edge pred succ l.graph) [
  | none ↦ raised
  | some old_edge ↦ ok (record l {
    graph = link n succ false (some paradigm) (remove_edge old_edge l.graph);
    succ_linked = if direct.id == succ.id then true else l.succ_linked;
  })
]

-- One round of the loop over the paradigms of an MPI node.
unfoldable pub link_paradigm :
    Node → NodeMap → NodeMap → Option Node → Option Node → ℕ → Linking → Result Linking
unfolding link link_successor is_wait same_node_as
link_paradigm n preds nexts direct_pred direct_succ i l =
    let paradigm = 2 ^ i in
    if not (bit_and paradigm n.paradigm == n.paradigm) then ok l else elim (preds paradigm) [
      | none ↦ ok l
      | some pred ↦ link_successor n pred paradigm direct_succ (nexts paradigm) (record l {
        graph = link pred n (is_wait pred n) (some paradigm) l.graph;
        pred_linked = if same_node_as direct_pred pred then true else l.pred_linked;
      })
    ]

unfoldable pub link_paradigms :
    Node → NodeMap → NodeMap → Option Node → Option Node → List ℕ → Linking → Result Linking
unfolding link_paradigm
link_paradigms n preds nexts direct_pred direct_succ [] l = ok l
link_paradigms n preds nexts direct_pred direct_succ (i ∷ rest) l =
    link_paradigm n preds nexts direct_pred direct_succ i l
    >>= link_paradigms n preds nexts direct_pred direct_succ rest

-- The edge from the direct predecessor, unless the loop made it.
unfoldable pub link_direct_pred : Node → Node → Linking → Graph
unfolding link is_wait
link_direct_pred n direct_pred l =
    if l.pred_linked
    then l.graph
    else link direct_pred n (is_wait direct_pred n) (some direct_pred.paradigm) l.graph

-- The edge to the direct successor, in place of the one from the predecessor.
unfoldable pub link_direct_succ : Node → Node → Option Node → Linking → Graph → Graph
unfolding link get_edge
link_direct_succ n direct_pred none l g = g
link_direct_succ n direct_pred (some direct_succ) l g =
    if l.succ_linked
    then g
    else link n direct_succ false (some direct_succ.paradigm)
        (elim (get_edge direct_pred direct_succ g) [
          | none ↦ g
          | some old_edge ↦ remove_edge old_edge g
        ])

-- All edges of a new node; a node with no predecessor gets none.
unfoldable pub link_node : Node → NodeMap → NodeMap → Graph → Result Graph
unfolding link_paradigms link_direct_pred link_direct_succ direct_predecessor_of direct_successor_of
link_node n preds nexts g = elim (direct_predecessor_of preds) [
  | none ↦ ok g
  | some direct_pred ↦
      let direct_succ = direct_successor_of nexts in
      let start : Linking = record { graph = g; pred_linked = false; succ_linked = false } in
      let loop =
        if n.paradigm == Paradigm.mpi
        then link_paradigms n preds nexts (some direct_pred) direct_succ paradigm_indices start
        else ok start in
      loop >>= λ l.
      ok (link_direct_succ n direct_pred direct_succ l (link_direct_pred n direct_pred l))
]

-- The last kernel leave on another stream of the device, if it is not after the node. A paradigm
-- without an entry is a read outside the table.
unfoldable pub kernel_before : Node → EventStream → (ℕ → Pair) → Result (Option Node)
kernel_before n s pairs =
    if s.id == n.stream_id then ok none else elim (get_last_paradigm_node s n.paradigm) [
      | out_of_bounds ↦ undefined
      | value none ↦ ok none
      | value (some kernel) ↦ elim (pairs kernel.id).second [
        | none ↦ ok none
        | some kernel_leave ↦
            if ltb n.time kernel_leave.time then ok none else ok (some kernel_leave)
      ]
    ]

unfoldable pub latest_kernel :
    Node → (ℕ → Pair) → Option Node → List EventStream → Result (Option Node)
unfolding kernel_before later
latest_kernel n pairs found [] = ok found
latest_kernel n pairs found (s ∷ streams) =
    kernel_before n s pairs >>= λ kernel. latest_kernel n pairs (later found kernel) streams

-- The left link of a kernel. `link_kernels` is the program option, `streams` are those of the device.
unfoldable pub link_kernel :
    ℕ → List EventStream → Node → Option Node → EventStream → (ℕ → Pair) → Links → Result Links
unfolding latest_kernel put
link_kernel link_kernels streams n direct_pred s pairs links =
    if not (ltb 0 link_kernels && (is_enter n && is_offload_kernel n))
    then ok links
    else if not (is_device_stream s)
    then ok links
    else latest_kernel n pairs
        (elim direct_pred [ none ↦ none | some p ↦ if is_leave p then some p else none ]) streams
      >>= λ found. ok (elim found [
        | none ↦ links
        | some kernel_leave ↦
            if n.id == kernel_leave.id
            then links
            else record links { left = put links.left n.id (some kernel_leave.id) }
      ])

unfoldable pub add_new_graph_node_internal :
    ℕ → List EventStream → Node → EventStream → Engine → Result (EventStream × Engine)
unfolding direct_predecessor_of
add_new_graph_node_internal link_kernels streams n s e = do
  t ← take_in n s e.links
  e' ← update_stack n (record e { links = t.links })
  g ← link_node n t.pred t.next e'.graph
  links ←
      link_kernel link_kernels streams n (direct_predecessor_of t.pred) t.stream e'.pairs e'.links
  ok (t.stream, record e' { graph = g; links = links })
