-- ===== src/Node/Order.antt =====
-- `Node::compareLess` of src/backend/include/graph/Node.hpp, by which events are sorted.
use casita.Prelude.{Bool, true, false, not, ◌&&◌, ◌==◌, ltb, if◌then◌else◌}
use casita.Node.Paradigm
use casita.Node.Ofld
use casita.Node.Mpi
use casita.Node.Defs.{Node, is_atomic, has_paradigm, has_type}

-- The last resort: a higher stream id comes first, but an MPI exit comes last.
unfoldable pub compare_streams : Node → Node → Bool
compare_streams n1 n2 =
    if has_paradigm n1 Paradigm.mpi && has_type n1 Mpi.exit
    then false
    else if has_paradigm n1 Paradigm.mpi && has_type n2 Mpi.exit
    then true
    else ltb n2.stream_id n1.stream_id

-- Two streams, with equal time stamps and paradigms: a kernel comes before the wait for it.
unfoldable pub compare_offload : Node → Node → Bool
unfolding compare_streams
compare_offload n1 n2 =
    if has_paradigm n1 Paradigm.offload && (has_type n1 Ofld.task_kernel && has_type n2 Ofld.wait)
    then true
    else if has_paradigm n1 Paradigm.offload
        && (has_type n2 Ofld.task_kernel && has_type n1 Ofld.wait)
    then false
    else compare_streams n1 n2

-- Equal time stamps.
unfoldable pub compare_same_time : Node → Node → Bool
unfolding compare_offload
compare_same_time n1 n2 =
    if is_atomic n1 && not (is_atomic n2)
    then true
    else if not (is_atomic n1) && is_atomic n2
    then false
    else if not (n1.paradigm == n2.paradigm)
    then ltb n1.paradigm n2.paradigm
    else if n1.stream_id == n2.stream_id
    then ltb n1.id n2.id
    else compare_offload n1 n2

-- True if the first node is before the second.
unfoldable pub compare_less : Node → Node → Bool
unfolding compare_same_time
compare_less n1 n2 =
    if not (n1.time == n2.time) then ltb n1.time n2.time else compare_same_time n1 n2
