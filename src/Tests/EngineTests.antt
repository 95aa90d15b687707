-- ===== src/Tests/EngineTests.antt =====
-- The engine on a few nodes: src/backend/GraphEngine.cpp.
use casita.Prelude.{
  ℕ, ◌^◌, sym, ◌∙◌, inr, Bool-cases, some-injective, ◌≡◌, refl, ◌⊎◌, inl, Bool, true, Option, none,
  some, List, [], ◌∷◌, ◌==◌, arith, All, if◌then◌else◌, get_elem?,
}
use casita.Node.Paradigm
use casita.Node.Flags.{has_flag}
use casita.Node.Defs.{Node}
use casita.Node.Order.{compare_less}
use casita.Edge.Defs.{is_intra_stream_edge}
use casita.Graph.Defs.{Graph, empty, add_edge, update, get_in_edges}
use casita.Stream.Defs.{
  EventStream, new_event_stream, get_last_node_of, paradigm_indices, last_from, later_of,
  get_last_paradigm_node,
}
use casita.Engine.Defs.{Engine, ok, sane, get_edge}
use casita.Engine.Outcomes.{Holds}
use casita.Engine.Nodes.{comes_last, link_node, add_new_graph_node_internal}
use casita.Engine.Queries.{
  run_sanity_check, stream_walk_backward, get_first_timed_graph_node, get_last_graph_node,
  last_graph_node_from, later_node_of, is_timed, thrown_on, walk_from, back_step, closest_from,
  closer,
}
use casita.Engine.Sanity.{IsSane}
use casita.Engine.SaneNodes.{add_new_graph_node_internal-IsSane}
use casita.Engine.Regions.{update_stacks, Regions, nothing, region}
use casita.Engine.RegionLaws.{Closes, update_stacks-Closes}
use casita.Engine.WalkBack.{Walk, stream_walk_backward-Walk}
use casita.Engine.Joining.{IsIdentified, Joined}
use casita.Engine.Latest.{IsLatest}
use casita.Engine.LinkLaws.{link_node-Joined}
use casita.Engine.QueryLaws.{
  LastOf, TimedOf, NotLater, NotEarlier, get_first_timed_graph_node-earliest,
  get_last_graph_node-latest,
}
use casita.Tests.Data.{send_enter, send_leave, send_edge, stream_nodes}

abbrev quiet : Engine
quiet = record {
  graph = empty;
  links = record { left = λ k. none; right = λ k. none };
  pairs = λ k. record { first = none; second = none };
  callers = λ k. none;
  stacks = λ k. [];
}

abbrev master : EventStream
master = new_event_stream 0 0 "master" 3

empty-IsSane : IsSane empty
unfolding empty
empty-IsSane = record { out_sane = λ u. tt; in_sane = λ v. tt }

-- The region of the send is open.
abbrev in_send : EventStream
in_send = record master {
  nodes = send_enter ∷ [];
  last_node = some send_enter;
  graph_data = λ i.
      if i == 2
      then record { first_node = some send_enter; last_node = some send_enter }
      else record { first_node = none; last_node = none };
}

abbrev sending : Engine
sending = record quiet { stacks = λ k. if k == 0 then send_enter ∷ [] else [] }

comes_after : comes_last send_leave in_send ≡ true
unfolding comes_last compare_less
comes_after = refl

add_new_graph_node_internal-IsSane_example :
    Holds
      (λ r. IsSane r.1.graph × ((all : List EventStream) → run_sanity_check r.1.graph all ≡ sane))
      (add_new_graph_node_internal 0 [] send_leave in_send sending)
add_new_graph_node_internal-IsSane_example =
    add_new_graph_node_internal-IsSane 0 [] send_leave in_send sending empty-IsSane
      (inl comes_after)

send_region : Regions 0 (send_enter ∷ send_leave ∷ [])
send_region = region send_enter send_leave [] [] refl refl refl refl nothing nothing refl

update_stacks-Closes_example :
    (e : Engine) × (update_stacks (send_enter ∷ send_leave ∷ []) quiet ≡ ok e)
    × Closes send_region quiet e
update_stacks-Closes_example =
    update_stacks-Closes 0 (send_enter ∷ send_leave ∷ []) send_region quiet
      ((λ e. absurd (omega (arith, e)), tt), (tt, tt))

abbrev count_node : ℕ → Node → ℕ × Bool
count_node count n = (1, true)

abbrev one_edge : Graph
one_edge = add_edge send_edge empty

stream_walk_backward-Walk_example :
    Walk count_node one_edge send_leave 0
      (stream_walk_backward count_node one_edge (some send_leave) 0)
stream_walk_backward-Walk_example = stream_walk_backward-Walk count_node one_edge send_leave 0

-- The enter has no entry for in-edges, at which the walk throws.
walk_to_enter : stream_walk_backward count_node one_edge (some send_leave) 0 ≡ thrown_on 1
unfolding stream_walk_backward walk_from back_step closest_from closer get_in_edges
    is_intra_stream_edge update add_edge empty
walk_to_enter = refl

abbrev one_before : ℕ → Option Node
one_before k = if k == Paradigm.mpi then some send_enter else none

one_before-only : (k : ℕ) (a : Node) → one_before k ≡ some a → send_enter ≡ a
one_before-only k a e = elim (Bool-cases (k == Paradigm.mpi)) [
  | inl t ↦ some-injective (sym (rw t refl) ∙ e)
  | inr t ↦ absurd (let bad : none ≡ some a = sym (rw t refl) ∙ e in cc)
]

one_before-IsIdentified : IsIdentified one_before
one_before-IsIdentified i j a b e f h = sym (one_before-only i a e) ∙ one_before-only j b f

link_node-Joined_example :
    (g : Graph) × (link_node send_leave one_before (λ k. none) empty ≡ ok g)
    × ((All (λ i. one_before (2 ^ i) ≡ none) paradigm_indices × (g ≡ empty))
        ⊎ ((pred : Node) × IsLatest one_before pred × Joined send_leave one_before pred g))
unfolding get_edge empty
link_node-Joined_example =
    link_node-Joined send_leave one_before (λ k. none) empty (λ k. refl) (λ m. refl)
      one_before-IsIdentified

abbrev busy : EventStream
busy = record (new_event_stream 0 0 "master" 3) { nodes = stream_nodes }

get_first_timed_graph_node-earliest_example :
    (r : Option Node) × (get_first_timed_graph_node 14 (busy ∷ []) ≡ ok r)
    × ((r ≡ none) ⊎ TimedOf 14 (busy ∷ []) r)
    × ((i j : ℕ) (s : EventStream) (n : Node)
        → get_elem? (busy ∷ []) i ≡ some s
        → get_elem? s.nodes j ≡ some n
        → is_timed 14 n ≡ true
        → NotLater r (some n))
get_first_timed_graph_node-earliest_example =
    get_first_timed_graph_node-earliest 14 (busy ∷ []) refl (omega arith, tt)

-- The other stream has a last MPI node.
abbrev mixed : List EventStream
mixed = master ∷ in_send ∷ []

last_of_mixed : get_last_graph_node Paradigm.mpi mixed ≡ some send_enter
unfolding get_last_graph_node last_graph_node_from later_node_of get_last_node_of last_from later_of
    get_last_paradigm_node new_event_stream has_flag
last_of_mixed = refl

get_last_graph_node-latest_example :
    All
      (λ s. NotEarlier (get_last_graph_node Paradigm.mpi mixed) (get_last_node_of s Paradigm.mpi))
      mixed
    × ((get_last_graph_node Paradigm.mpi mixed ≡ none)
        ⊎ LastOf Paradigm.mpi mixed (get_last_graph_node Paradigm.mpi mixed))
get_last_graph_node-latest_example = get_last_graph_node-latest Paradigm.mpi mixed
