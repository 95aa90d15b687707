-- ===== src/Tests/BlameTests.antt =====
-- The blame of a send that is waited for: src/analysis/include/BlameDistribution.hpp.
use casita.Prelude.{ℕ, ◌+◌, ◌*◌, ◌/◌, ◌≡◌, refl, true, some, List, [], ◌∷◌}
use casita.Node.Flags.{has_flag}
use casita.Node.Defs.{Node, is_leave, is_atomic, has_paradigm}
use casita.Node.Kinds.{is_ofld, is_process, is_offload_wait_all, is_offload_enqueue_kernel}
use casita.GraphNode.Search.{find_node, search_loop, middle}
use casita.Graph.Defs.{Graph, empty, add_edge}
use casita.Stream.Walk.{ended, walk_backward, locate, downwards, visit}
use casita.BlameDistribution.Callbacks.{StreamWalkInfo, new_info, ofld_stream_walk_callback}
use casita.BlameDistribution.Defs.{Double}
use casita.Tests.Data.{send_enter, send_leave, send_edge}

-- Natural numbers in place of `double`.
abbrev pub naturals : Double
naturals = record {
  Value = ℕ;
  of_nat = λ n. n;
  to_nat = λ n. n;
  add = λ a b. a + b;
  mul = λ a b. a * b;
  div = λ a b. a / b;
}

abbrev sent : Graph
sent = add_edge send_edge empty

abbrev both : List Node
both = send_enter ∷ send_leave ∷ []

abbrev walk_info : StreamWalkInfo
walk_info = record { list = send_leave ∷ send_enter ∷ []; wait_state_time = 0 }

walk_back :
    walk_backward ofld_stream_walk_callback (some send_leave) both new_info ≡ ended walk_info true
unfolding walk_backward visit locate downwards ofld_stream_walk_callback find_node search_loop
    middle is_process is_atomic is_leave is_offload_wait_all is_ofld has_paradigm has_flag
    is_offload_enqueue_kernel
walk_back = refl
