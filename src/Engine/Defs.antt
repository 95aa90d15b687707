-- ===== src/Engine/Defs.antt =====
-- Edges, the stacks of open regions, and the check of all edges: src/backend/GraphEngine.cpp.
use casita.Prelude.{
  ℕ, ◌+◌, ◌-◌, ◌%◌, Bool, not, ◌&&◌, Option, none, some, List, [], ◌∷◌, ◌==◌, ltb, if◌then◌else◌,
  bit_or, find_first, String,
}
use casita.Node.Flags.{RecordType}
use casita.Node.Defs.{Node, u64, is_enter, is_leave, new_node}
use casita.Node.Kinds.{is_waitstate}
use casita.GraphNode.Partner.{same_record_type}
use casita.Edge.Defs.{Edge, new_edge, is_reverse_edge}
use casita.Graph.Defs.{Graph, add_node, add_edge, ends_at, or_empty}
use casita.Stream.Add.{Links, put}

-- `pair`, the enter and the leave of a region.
pub record Pair : Type 0 where
  pub first : Option Node
  pub second : Option Node

-- Pairs and callers are stored by the identifier of the node, the stacks by that of the stream.
pub record Engine : Type 0 where
  pub graph : Graph
  pub links : Links
  pub pairs : ℕ → Pair
  pub callers : ℕ → Option Node
  pub stacks : ℕ → List Node

-- The state after a call, an exception or failed assertion, or a read of invalid memory.
pub data Result {ℓ} (A : Type ℓ) : Type ℓ where
  ok : A → Result A
  raised undefined : Result A

infixl 5 ◌>>=◌
abbrev pub ◌>>=◌ {ℓ κ} : {A : Type ℓ} {B : Type κ} → Result A → (A → Result B) → Result B
ok a >>= f = f a
raised >>= f = raised
undefined >>= f = undefined

-- `uint64_t` subtraction.
unfoldable pub sub64 : ℕ → ℕ → ℕ
sub64 a b = (a + u64 - b) % u64

unfoldable pub edge_paradigm : Node → Node → Option ℕ → ℕ
edge_paradigm source target (some type) = type
edge_paradigm source target none =
    if source.paradigm == target.paradigm
    then source.paradigm
    else bit_or source.paradigm target.paradigm

-- The edge that `newEdge` makes, and the call.
unfoldable pub engine_edge : Node → Node → Bool → Option ℕ → Edge
unfolding edge_paradigm sub64
engine_edge source target blocking edge_type =
    new_edge source target (sub64 target.time source.time) blocking
      (edge_paradigm source target edge_type)

unfoldable pub link : Node → Node → Bool → Option ℕ → Graph → Graph
link source target blocking edge_type = add_edge (engine_edge source target blocking edge_type)

unfoldable pub get_edge : Node → Node → Graph → Option Edge
get_edge source target g = find_first (ends_at target.id) (or_empty (g.out_edges source.id))

-- `newGraphNode`, with the value of `globalNodeId` before and after.
unfoldable pub new_engine_node :
    ℕ → ℕ → ℕ → String → ℕ → RecordType → ℕ → Engine → Node × ℕ × Engine
new_engine_node global_node_id time stream_id name paradigm record_type node_type e =
    let (n, next) = new_node global_node_id time stream_id name paradigm record_type node_type in
    (
      n,
      next,
      record e {
        graph = add_node n e.graph;
        pairs = put e.pairs n.id (record { first = some n; second = none });
        callers = put e.callers n.id none;
      },
    )

-- The stack of open regions of a stream.
unfoldable pub top : List Node → Option Node
top [] = none
top (n ∷ rest) = some n

-- `setPartner` of both nodes. The assertion fails on two nodes of one record type.
unfoldable pub pair_of : Node → Node → Pair
pair_of this partner =
    if ltb this.time partner.time
    then record { first = some this; second = some partner }
    else record { first = some partner; second = some this }

unfoldable pub set_partners : Node → Node → (ℕ → Pair) → Result (ℕ → Pair)
unfolding pair_of put
set_partners n stack_node pairs =
    if same_record_type stack_node.record_type n.record_type
    then raised
    else ok (put (put pairs n.id (pair_of n stack_node)) stack_node.id (pair_of stack_node n))

unfoldable pub close_region : Node → List Node → Engine → Result Engine
unfolding set_partners top
close_region n [] e = raised
close_region n (stack_node ∷ rest) e = set_partners n stack_node e.pairs >>= λ pairs. ok (record e {
  pairs = pairs;
  stacks = put e.stacks n.stream_id rest;
  callers = put e.callers n.id (top rest);
})

unfoldable pub open_region : Node → Engine → Engine
unfolding top
open_region n e = record e {
  callers = put e.callers n.id (top (e.stacks n.stream_id));
  stacks = put e.stacks n.stream_id (n ∷ e.stacks n.stream_id);
}

-- What a new node does to the stack of its stream.
unfoldable pub update_stack : Node → Engine → Result Engine
unfolding close_region open_region
update_stack n e =
    if is_leave n
    then close_region n (e.stacks n.stream_id) e
    else if is_enter n
    then ok (open_region n e)
    else ok e

-- `sanityCheckEdge`, with the exception that it throws.
pub data Sanity : Type 0 where
  sane wrong_duration should_block : Sanity

unfoldable pub expected_time : Edge → ℕ
unfolding sub64
expected_time e = if is_reverse_edge e then 0 else sub64 e.end_node.time e.start_node.time

-- An enter and the leave of a wait state.
unfoldable pub is_wait : Node → Node → Bool
is_wait a b = is_enter a && is_leave b && is_waitstate a && is_waitstate b

unfoldable pub sanity_check_edge : Edge → Sanity
unfolding expected_time is_wait
sanity_check_edge e =
    if not (e.duration == expected_time e)
    then wrong_duration
    else if not e.blocking && is_wait e.start_node e.end_node
    then should_block
    else sane

unfoldable pub sanity_check_edges : List Edge → Sanity
unfolding sanity_check_edge
sanity_check_edges [] = sane
sanity_check_edges (e ∷ edges) = elim (sanity_check_edge e) [
  | sane ↦ sanity_check_edges edges
  | bad ↦ bad
]

-- The in- and out-edges of all nodes of a stream.
unfoldable pub sanity_check_nodes : Graph → List Node → Sanity
unfolding sanity_check_edges
sanity_check_nodes g [] = sane
sanity_check_nodes g (n ∷ nodes) = elim (sanity_check_edges (or_empty (g.in_edges n.id))) [
  | sane ↦ elim (sanity_check_edges (or_empty (g.out_edges n.id))) [
    | sane ↦ sanity_check_nodes g nodes
    | bad ↦ bad
  ]
  | bad ↦ bad
]
