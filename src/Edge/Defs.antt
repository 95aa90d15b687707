-- ===== src/Edge/Defs.antt =====
-- class Edge of src/backend/include/graph/Edge.hpp. The pointers to the end points are the nodes
-- themselves, whose time and stream never change; the blame map stands by itself in `Blame`.
use casita.Prelude.{ℕ, ◌-◌, Bool, true, false, not, ◌==◌, ltb, if◌then◌else◌}
use casita.Node.Flags.{has_flag}
use casita.Node.Defs.{Node, u64}

pub record Edge : Type 0 where
  pub start_node : Node
  pub end_node : Node
  pub duration : ℕ
  pub blocking : Bool
  pub paradigm : ℕ

unfoldable pub is_reverse : Node → Node → Bool
is_reverse start_node end_node = ltb end_node.time start_node.time

-- The constructor. For a reverse edge its body assigns to the parameters `blocking` and `duration`;
-- the field `blocking` already has its value by then, the field `duration` gets it afterwards.
unfoldable pub new_edge : Node → Node → ℕ → Bool → ℕ → Edge
unfolding is_reverse
new_edge start_node end_node duration blocking edge_paradigm = record {
  start_node = start_node;
  end_node = end_node;
  duration = if is_reverse start_node end_node then 0 else duration;
  blocking = blocking;
  paradigm = edge_paradigm;
}

unfoldable pub has_edge_type : Edge → ℕ → Bool
has_edge_type e edge_paradigm = has_flag edge_paradigm e.paradigm

abbrev pub u64_max : ℕ
u64_max = u64 - 1

unfoldable pub compute_weight : ℕ → Bool → ℕ
compute_weight duration blocking =
    if not blocking then u64_max - (if duration == 0 then 1 else duration) else u64_max

unfoldable pub get_weight : Edge → ℕ
unfolding compute_weight
get_weight e = compute_weight e.duration e.blocking

unfoldable pub make_blocking : Edge → Edge
make_blocking e = record e { blocking = true }

unfoldable pub unblock : Edge → Edge
unblock e =
    let a = e.start_node.time in
    let b = e.end_node.time in
    record e {
      blocking = false;
      duration = if e.duration == 0 then if ltb b a then a - b else b - a else e.duration;
    }

unfoldable pub is_reverse_edge : Edge → Bool
unfolding is_reverse
is_reverse_edge e = is_reverse e.start_node e.end_node

unfoldable pub is_intra_stream_edge : Edge → Bool
is_intra_stream_edge e = e.start_node.stream_id == e.end_node.stream_id

unfoldable pub is_inter_stream_edge : Edge → Bool
is_inter_stream_edge e = not (e.start_node.stream_id == e.end_node.stream_id)
