-- ===== src/Tests/StreamTests.antt =====
-- A stream that takes in MPI nodes: src/backend/EventStream.cpp.
use casita.Prelude.{ℕ, ◌+◌, Bool, ◌≡◌, refl, true, false, none, some, arith}
use casita.Node.Flags.{has_flag}
use casita.Node.Defs.{Node, is_enter, has_paradigm}
use casita.Node.Order.{compare_less}
use casita.Stream.Defs.{
  EventStream, new_event_stream, paradigm_index, stream_sort, is_host_stream, is_device_stream,
}
use casita.Stream.Add.{Links, is_before, add_graph_node}
use casita.Stream.Consistent.{IsConsistent}
use casita.Stream.AddGraphNode.{Ends, add_graph_node-Ends}
use casita.Stream.Walk.{walk_backward, visit, locate, ended, downwards, Calls, walk_backward-Calls}
use casita.GraphNode.Search.{find_node, search_loop, middle, same_node}
use casita.Tests.Data.{send_enter, wait_enter, stream_nodes}
use casita.Tests.SearchTests.{stream_nodes-IsSorted}

abbrev no_links : Links
no_links = record { left = λ k. none; right = λ k. none }

abbrev host : EventStream
host = new_event_stream 0 0 "master" 3

index_omp : paradigm_index 8 ≡ 3
unfolding paradigm_index
index_omp = refl

-- The comparison of streams holds of a stream and itself.
sort_reflexive : stream_sort host host ≡ true
unfolding stream_sort is_host_stream is_device_stream has_flag new_event_stream
sort_reflexive = refl

host-IsConsistent : IsConsistent host
unfolding new_event_stream
host-IsConsistent = record {
  firsts = λ i h. refl;
  lasts = λ i h. refl;
  sorted = λ i h. tt;
  last = refl;
  own = tt;
}

add_graph_node-Ends_example :
    Ends send_enter host false (add_graph_node send_enter host no_links none)
unfolding new_event_stream has_paradigm has_flag is_before
add_graph_node-Ends_example =
    add_graph_node-Ends send_enter host no_links none host-IsConsistent refl tt

-- A callback that counts the nodes and stops at the first leave.
abbrev count_to_leave : ℕ → Node → ℕ × Bool
count_to_leave count n = (count + 1, is_enter n)

walk_ends : walk_backward count_to_leave (some wait_enter) stream_nodes 0 ≡ ended 2 false
unfolding walk_backward visit locate downwards find_node search_loop middle same_node is_enter
    compare_less
walk_ends = refl

walk_backward-Calls_example :
    (count : ℕ) × (result : Bool) × (walk_backward count_to_leave (some wait_enter) stream_nodes 0
      ≡ ended count result)
    × Calls count_to_leave stream_nodes 2 0 count result
walk_backward-Calls_example =
    walk_backward-Calls count_to_leave stream_nodes 0 wait_enter 2 stream_nodes-IsSorted
      (omega arith) refl
