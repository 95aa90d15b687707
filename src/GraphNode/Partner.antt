-- ===== src/GraphNode/Partner.antt =====
-- class GraphNode of src/backend/include/graph/GraphNode.hpp: what it adds to a node. A pointer is
-- the identifier of the node that it points to, and `none` is NULL.
use casita.Prelude.{
  ℕ, ◌≤◌, ◌≡◌, Bool, true, false, not, Option, none, some, ◌==◌, ltb, if◌then◌else◌, arith, String,
}
use casita.Node.Flags.{RecordType, atomic, enter, leave, single}
use casita.Node.Metric
use casita.Node.Defs.{Node, is_enter, get_counter, new_node}

pub record GraphNode : Type 0 where
  pub base : Node
  pub open base use *
  pub first : Option ℕ
  pub second : Option ℕ
  pub link_left : Option ℕ
  pub link_right : Option ℕ
  pub caller : Option ℕ

-- The constructor: the first of the pair is the node itself.
unfoldable pub new_graph_node : ℕ → ℕ → ℕ → String → ℕ → RecordType → ℕ → GraphNode × ℕ
unfolding new_node
new_graph_node global_node_id time stream_id name paradigm record_type node_type =
    let (base, next) = new_node global_node_id time stream_id name paradigm record_type node_type in
    (
      record {
        base = base;
        first = some base.id;
        second = none;
        link_left = none;
        link_right = none;
        caller = none;
      },
      next,
    )

unfoldable pub same_record_type : RecordType → RecordType → Bool
same_record_type atomic atomic = true
same_record_type enter enter = true
same_record_type leave leave = true
same_record_type single single = true
same_record_type _ _ = false

-- `none`: the partner is NULL, which the assertion dereferences, or has the same record type.
unfoldable pub set_partner : GraphNode → Option GraphNode → Option GraphNode
unfolding same_record_type
set_partner this none = none
set_partner this (some partner) =
    if same_record_type partner.record_type this.record_type
    then none
    else if ltb this.time partner.time
    then some (record this { first = some this.id; second = some partner.id })
    else some (record this { first = some partner.id; second = some this.id })

unfoldable pub has_partner : GraphNode → Bool
has_partner n = elim n.first [
  | none ↦ false
  | some a ↦ elim n.second [ none ↦ false | some b ↦ true ]
]

unfoldable pub get_partner : GraphNode → Option ℕ
get_partner n = if is_enter n.base then n.second else n.first

unfoldable pub set_caller : GraphNode → Option ℕ → GraphNode
set_caller n caller = record n { caller = caller }

unfoldable pub set_link_left : GraphNode → Option ℕ → GraphNode
set_link_left n link_left = record n { link_left = link_left }

unfoldable pub set_link_right : GraphNode → Option ℕ → GraphNode
set_link_right n link_right = record n { link_right = link_right }

unfoldable pub is_on_critical_path : GraphNode → Bool
is_on_critical_path n = not ((get_counter n.base Metric.critical_path).0 == 0)

unfoldable pub get_waiting_time : GraphNode → ℕ
get_waiting_time n = (get_counter n.base Metric.waiting_time).0

-- `addNewGraphNodeInternal` of src/backend/GraphEngine.cpp pairs a leave with the enter on the stack.
unfoldable pub link_partners : GraphNode → GraphNode → Option (GraphNode × GraphNode)
unfolding set_partner
link_partners node stack_node = elim (set_partner node (some stack_node)) [
  | none ↦ none
  | some node' ↦ elim (set_partner stack_node (some node')) [
    | none ↦ none
    | some stack_node' ↦ some (node', stack_node')
  ]
]

-- Pairing a leave with its enter always succeeds. The leave then has the enter as its partner, and
-- the enter has the leave, but if both have one time stamp then the enter has itself.
pub get_partner-link_partners :
    (l e : GraphNode)
    → l.record_type ≡ leave
    → e.record_type ≡ enter
    → e.time ≤ l.time
    → (l' : GraphNode) × (e' : GraphNode) × (link_partners l e ≡ some (l', e'))
      × (get_partner l' ≡ some e.id)
      × (get_partner e' ≡ (if ltb e.time l.time then some l.id else some e.id))
unfolding link_partners get_partner is_enter
get_partner-link_partners l e p q t = (
  record l { first = some e.id; second = some l.id },
  (if ltb e.time l.time
      then record e { first = some e.id; second = some l.id }
      else record e { first = some l.id; second = some e.id }),
  ground arith,
  ground arith,
  ground arith,
)
