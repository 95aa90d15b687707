-- ===== src/BlameDistribution/Callbacks.antt =====
-- The callbacks of backward walks: src/analysis/include/StreamWalk.h, mpi/MPIRulesCommon.hpp,
-- omp/OMPRulesCommon.hpp and offload/OffloadRulesCommon.hpp there.
use casita.Prelude.{
  ℕ, ◌+◌, ◌%◌, Bool, true, false, not, ◌&&◌, ◌||◌, Option, none, some, List, [], ◌∷◌, ◌++◌, ◌==◌,
  ltb, if◌then◌else◌, get_last?,
}
use casita.Node.Metric
use casita.Node.Defs.{Node, u64, is_leave, get_counter}
use casita.Node.Kinds.{
  is_process, is_mpi_blocking, is_omp_sync, is_offload_wait_all, is_offload_enqueue_kernel,
}

-- `StreamWalkInfo`; `analysis` is a parameter of the code that uses it.
pub record StreamWalkInfo : Type 0 where
  pub list : List Node
  pub wait_state_time : ℕ

abbrev pub new_info : StreamWalkInfo
new_info = record { list = []; wait_state_time = 0 }

unfoldable pub push_node : Node → StreamWalkInfo → StreamWalkInfo
push_node n info = record info { list = info.list ++ n ∷ [] }

unfoldable pub waiting_time : Node → ℕ
waiting_time n = (get_counter n Metric.waiting_time).0

unfoldable pub add_waiting : Node → StreamWalkInfo → StreamWalkInfo
unfolding waiting_time
add_waiting n info = record info { wait_state_time = (info.wait_state_time + waiting_time n) % u64 }

unfoldable pub mpi_stream_walk_callback : StreamWalkInfo → Node → StreamWalkInfo × Bool
unfolding push_node add_waiting
mpi_stream_walk_callback info n =
    let pushed = push_node n info in
    if is_process n || (is_mpi_blocking n && is_leave n)
    then (pushed, false)
    else (add_waiting n pushed, true)

-- The last node of the list is later than the node.
unfoldable pub before_back : Node → List Node → Bool
before_back n list = elim (get_last? list) [ none ↦ false | some back ↦ ltb n.time back.time ]

unfoldable pub is_none : Option Node → Bool
is_none none = true
is_none (some n) = false

module _ (callers : ℕ → Option Node) where
  unfoldable pub omp_host_stream_walk_callback : StreamWalkInfo → Node → StreamWalkInfo × Bool
  unfolding push_node add_waiting before_back is_none
  omp_host_stream_walk_callback info n =
      let pushed = push_node n info in
      if is_none (callers n.id) && before_back n info.list
      then (pushed, false)
      else if is_leave n && is_omp_sync n
      then (if not ((get_counter n Metric.omp_ignore_barrier).0 == 0)
          then (add_waiting n pushed, true)
          else (pushed, false))
      else if is_process n
      then (pushed, false)
      else (add_waiting n pushed, true)

  unfoldable pub omp_device_stream_walk_callback : StreamWalkInfo → Node → StreamWalkInfo × Bool
  unfolding push_node add_waiting is_none
  omp_device_stream_walk_callback info n =
      let waited = add_waiting n (push_node n info) in
      if is_none (callers n.id) && (get_counter n Metric.omp_first_offload_evt).0 == 1
      then (waited, false)
      else (waited, true)

unfoldable pub ofld_stream_walk_callback : StreamWalkInfo → Node → StreamWalkInfo × Bool
unfolding push_node
ofld_stream_walk_callback info n = (
  push_node n info,
  not (is_process n || (is_leave n && (is_offload_wait_all n || is_offload_enqueue_kernel n))),
)
