-- ===== src/Tests/Data.antt =====
-- Two streams of concrete nodes, and the edges between them.
use casita.Prelude.{ℕ, true, false, none, List, [], ◌∷◌}
use casita.Node.Flags.{RecordType, enter, leave}
use casita.Node.Paradigm
use casita.Node.Mpi
use casita.Node.Ofld
use casita.Node.Defs.{Node}
use casita.Edge.Defs.{Edge}

abbrev pub make_node : ℕ → ℕ → ℕ → RecordType → ℕ → ℕ → Node
make_node id time stream_id record_type paradigm node_type = record {
  id = id;
  time = time;
  stream_id = stream_id;
  function_id = 0;
  name = "region";
  record_type = record_type;
  paradigm = paradigm;
  node_type = node_type;
  link = none;
  referenced_stream = 0;
  counters = [];
}

-- A send on stream 0.
abbrev pub send_enter : Node
send_enter = make_node 1 10 0 enter Paradigm.mpi Mpi.send

abbrev pub send_leave : Node
send_leave = make_node 2 20 0 leave Paradigm.mpi Mpi.send

abbrev pub wait_enter : Node
wait_enter = make_node 3 30 0 enter Paradigm.mpi Mpi.wait

abbrev pub wait_leave : Node
wait_leave = make_node 4 40 0 leave Paradigm.mpi Mpi.wait

abbrev pub stream_nodes : List Node
stream_nodes = send_enter ∷ send_leave ∷ wait_enter ∷ []

-- A kernel, a wait for another one and a third task, all of one time.
abbrev pub kernel : Node
kernel = make_node 5 50 1 enter Paradigm.offload Ofld.task_kernel

abbrev pub other : Node
other = make_node 6 50 2 enter Paradigm.offload Ofld.task_data

abbrev pub device_wait : Node
device_wait = make_node 7 50 3 enter Paradigm.offload Ofld.wait

-- The region of the send, and one that blocks.
abbrev pub send_edge : Edge
send_edge = record {
  start_node = send_enter;
  end_node = send_leave;
  duration = 10;
  blocking = false;
  paradigm = Paradigm.mpi;
}

abbrev pub short_edge : Edge
short_edge = record send_edge { duration = 4 }

abbrev pub wait_edge : Edge
wait_edge = record {
  start_node = wait_enter;
  end_node = wait_leave;
  duration = 10;
  blocking = true;
  paradigm = Paradigm.mpi;
}
