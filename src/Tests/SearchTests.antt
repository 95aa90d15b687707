-- ===== src/Tests/SearchTests.antt =====
-- Searches in a vector of three nodes: src/backend/include/graph/GraphNode.hpp.
use casita.Prelude.{◌≡◌, refl, none, some, List, [], ◌∷◌, arith}
use casita.Node.Order.{compare_less}
use casita.GraphNode.Search.{
  at, find_node, node, failed, find_node_by_id, has_id, or_front, search_loop, middle, dec,
  on_break, reads_outside,
}
use casita.Node.Flags.{enter}
use casita.Node.Defs.{Node}
use casita.GraphNode.FindNode.{
  IsSorted, IsRising, find_node_hit, find_node_by_id-Searched, Searched,
}
use casita.GraphNode.TimeSearch.{find_last_node_before, find_first_node_after}
use casita.GraphNode.TimeLaws.{IsTimed}
use casita.GraphNode.TimeLast.{find_last_node_before-last_or_front}
use casita.GraphNode.TimeFirst.{find_first_node_after-first_or_last}
use casita.GraphNode.Partner.{GraphNode, link_partners, get_partner, get_partner-link_partners}
use casita.Tests.Data.{send_enter, send_leave, wait_enter, stream_nodes, make_node}

pub stream_nodes-IsSorted : IsSorted stream_nodes
unfolding compare_less
stream_nodes-IsSorted = (
  ((refl, refl, λ e. omega (arith, e)), ((refl, refl, λ e. omega (arith, e)), tt)),
  (((refl, refl, λ e. omega (arith, e)), tt), (tt, tt)),
)

stream_nodes-IsRising : IsRising stream_nodes
stream_nodes-IsRising = ((omega arith, (omega arith, tt)), ((omega arith, tt), (tt, tt)))

stream_nodes-IsTimed : IsTimed stream_nodes
stream_nodes-IsTimed = ((omega arith, (omega arith, tt)), ((omega arith, tt), (tt, tt)))

find_node_hit_example : find_node send_leave stream_nodes ≡ at 1
find_node_hit_example =
    find_node_hit send_leave stream_nodes 1 stream_nodes-IsSorted (omega arith) refl

find_node_by_id-Searched_example :
    Searched stream_nodes (some send_leave) (find_node_by_id 2 stream_nodes)
unfolding has_id
find_node_by_id-Searched_example =
    find_node_by_id-Searched 2 stream_nodes stream_nodes-IsRising (omega arith)

-- The search for a missing identifier reads behind the end of this vector.
abbrev odd_nodes : List Node
odd_nodes =
    make_node 1 10 0 enter 2 2
    ∷ make_node 3 10 0 enter 2 2
    ∷ make_node 5 10 0 enter 2 2
    ∷ make_node 7 10 0 enter 2 2
    ∷ make_node 9 10 0 enter 2 2
    ∷ []

find_missing : find_node_by_id 8 odd_nodes ≡ failed
unfolding find_node_by_id or_front search_loop middle dec has_id on_break reads_outside
find_missing = refl

find_last_node_before-last_or_front_example :
    find_last_node_before 25 stream_nodes ≡ node (some send_leave)
find_last_node_before-last_or_front_example =
    find_last_node_before-last_or_front 25 stream_nodes stream_nodes-IsTimed

find_first_node_after-first_or_last_example :
    find_first_node_after 25 stream_nodes ≡ node (some wait_enter)
find_first_node_after-first_or_last_example =
    find_first_node_after-first_or_last 25 stream_nodes stream_nodes-IsTimed

abbrev graph_enter : GraphNode
graph_enter = record {
  base = send_enter;
  first = some 1;
  second = none;
  link_left = none;
  link_right = none;
  caller = none;
}

abbrev graph_leave : GraphNode
graph_leave = record {
  base = send_leave;
  first = some 2;
  second = none;
  link_left = none;
  link_right = none;
  caller = none;
}

get_partner-link_partners_example :
    (l' : GraphNode) × (e' : GraphNode) × (link_partners graph_leave graph_enter ≡ some (l', e'))
    × (get_partner l' ≡ some 1)
    × (get_partner e' ≡ some 2)
get_partner-link_partners_example =
    get_partner-link_partners graph_leave graph_enter refl refl (omega arith)
