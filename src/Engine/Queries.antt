-- ===== src/Engine/Queries.antt =====
-- Searches over the graph and all streams: src/backend/GraphEngine.cpp.
use casita.Prelude.{
  ℕ, suc, zero, ◌*◌, ◌/◌, ◌%◌, Bool, not, ◌&&◌, Option, none, some, List, [], ◌∷◌, ◌++◌, ◌==◌, ltb,
  if◌then◌else◌, map, find_first,
}
use casita.Node.Paradigm
use casita.Node.Defs.{Node, u64, is_atomic, has_paradigm, remove_counters}
use casita.Node.Order.{compare_less}
use casita.Edge.Defs.{Edge, is_intra_stream_edge}
use casita.Graph.Defs.{Graph, returned, thrown, get_in_edges}
use casita.Stream.Defs.{
  EventStream, get_last_node_of, get_first_paradigm_node, value, out_of_bounds,
}
use casita.Engine.Defs.{Result, ok, undefined, ◌>>=◌, Sanity, sane, sanity_check_nodes}

-- `runSanityCheck` over the streams.
unfoldable pub run_sanity_check : Graph → List EventStream → Sanity
run_sanity_check g [] = sane
run_sanity_check g (s ∷ streams) = elim (sanity_check_nodes g s.nodes) [
  | sane ↦ run_sanity_check g streams
  | bad ↦ bad
]

-- The first edge of least duration.
unfoldable pub shorter : Option Edge → Edge → Option Edge
shorter none e = some e
shorter (some best) e = if ltb e.duration best.duration then some e else some best

unfoldable pub shortest_from : Option Edge → List Edge → Option Edge
unfolding shorter
shortest_from found [] = found
shortest_from found (e ∷ edges) = shortest_from (shorter found e) edges

unfoldable pub get_shortest_in_edge : Node → Graph → Option Edge
unfolding shortest_from
get_shortest_in_edge n g = elim (g.in_edges n.id) [
  | none ↦ none
  | some edges ↦ shortest_from none edges
]

-- The first node of a stream that has the paradigm, after time 0. For MPI the table of the stream is
-- read, which also names nodes of time 0.
unfoldable pub is_timed : ℕ → Node → Bool
is_timed paradigm n = ltb 0 n.time && not (is_atomic n) && has_paradigm n paradigm

unfoldable pub first_of_stream : ℕ → EventStream → Result (Option Node)
unfolding is_timed
first_of_stream paradigm s =
    if paradigm == Paradigm.mpi
    then elim (get_first_paradigm_node s Paradigm.mpi) [
      | value n ↦ ok n
      | out_of_bounds ↦ undefined
    ]
    else ok (find_first (is_timed paradigm) s.nodes)

unfoldable pub before_in_time : Option Node → Option Node → Option Node
before_in_time found none = found
before_in_time none (some n) = some n
before_in_time (some first) (some n) = if ltb n.time first.time then some n else some first

unfoldable pub first_timed_from : ℕ → Option Node → List EventStream → Result (Option Node)
unfolding first_of_stream before_in_time
first_timed_from paradigm found [] = ok found
first_timed_from paradigm found (s ∷ streams) =
    first_of_stream paradigm s >>= λ n. first_timed_from paradigm (before_in_time found n) streams

unfoldable pub get_first_timed_graph_node : ℕ → List EventStream → Result (Option Node)
unfolding first_timed_from
get_first_timed_graph_node paradigm = first_timed_from paradigm none

unfoldable pub later_node_of : Option Node → Option Node → Option Node
later_node_of found none = found
later_node_of none (some n) = some n
later_node_of (some last) (some n) = if compare_less last n then some n else some last

unfoldable pub last_graph_node_from : ℕ → Option Node → List EventStream → Option Node
unfolding later_node_of
last_graph_node_from paradigm found [] = found
last_graph_node_from paradigm found (s ∷ streams) =
    last_graph_node_from paradigm (later_node_of found (get_last_node_of s paradigm)) streams

unfoldable pub get_last_graph_node : ℕ → List EventStream → Option Node
unfolding last_graph_node_from
get_last_graph_node paradigm = last_graph_node_from paradigm none

-- The nodes of all streams one after the other, before `std::sort`.
unfoldable pub concat_nodes : List EventStream → List Node
concat_nodes [] = []
concat_nodes (s ∷ streams) = s.nodes ++ concat_nodes streams

-- `std::sort` with the order of nodes is a parameter.
unfoldable pub get_all_nodes : (List Node → List Node) → List EventStream → List Node
unfolding concat_nodes
get_all_nodes sort streams = sort (concat_nodes streams)

-- Each stream with the counters of its nodes removed.
unfoldable pub reset_counters : List EventStream → List EventStream
reset_counters = map (λ (s : EventStream). record s { nodes = map remove_counters s.nodes })

-- SYNC_DELTA is 500.
unfoldable pub get_delta_ticks : ℕ → ℕ
get_delta_ticks ticks_per_second = ((ticks_per_second * 500) % u64) / 1000000

-- The start of an in-edge on the same stream, the latest in time.
unfoldable pub closer : Option Node → Edge → Option Node
closer none e = if is_intra_stream_edge e then some e.start_node else none
closer (some prev) e =
    if is_intra_stream_edge e && ltb prev.time e.start_node.time
    then some e.start_node
    else some prev

unfoldable pub closest_from : Option Node → List Edge → Option Node
unfolding closer
closest_from prev [] = prev
closest_from prev (e ∷ edges) = closest_from (closer prev e) edges

-- What one round of `streamWalkBackward` finds: an exception, no earlier node, or the node to go to.
pub data BackStep : Type 0 where
  no_edges stuck : BackStep
  back_to : Node → BackStep

unfoldable pub back_step : Graph → Node → BackStep
unfolding closest_from
back_step g n = elim (get_in_edges g n.id) [
  | thrown ↦ no_edges
  | returned edges ↦ elim (closest_from none edges) [
    | none ↦ stuck
    | some prev ↦ if ltb prev.time n.time then back_to prev else stuck
  ]
]

pub data BackWalk (U : Type 0) : Type 0 where
  walked : U → BackWalk U
  thrown_on : U → BackWalk U
  out_of_fuel : BackWalk U

module _ {U : Type 0} (callback : U → Node → U × Bool) (g : Graph) where
  unfoldable pub walk_from : ℕ → Node → U → BackWalk U
  walk_from zero n u = out_of_fuel
  walk_from (suc fuel) n u = elim (back_step g n) [
    | no_edges ↦ thrown_on u
    | stuck ↦ walked u
    | back_to prev ↦
        let answer = callback u prev in
        let rest = walk_from fuel prev answer.0 in if answer.1 then rest else walked answer.0
  ]

  -- `none` is NULL. The time falls with each round, so it is fuel enough.
  unfoldable pub stream_walk_backward : Option Node → U → BackWalk U
  unfolding walk_from
  stream_walk_backward none u = walked u
  stream_walk_backward (some n) u = walk_from (suc n.time) n u
