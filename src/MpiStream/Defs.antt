-- ===== src/MpiStream/Defs.antt =====
-- The state of an MPI stream: src/backend/include/MpiStream.hpp and src/backend/MpiStream.cpp. The
-- graph nodes that it changes stand in a store of their own, by identifier. A record is stored by
-- the identifier of its request, which also stands for a pointer to it.
use casita.Prelude.{ℕ, Option, none, some, List, [], ◌∷◌, ◌==◌, ltb, if◌then◌else◌, String}
use casita.Node.Metric
use casita.Node.Defs.{Node, set_counter, set_referenced_stream_id}
use casita.Edge.Defs.{u64_max}
use casita.Stream.Defs.{EventStream, new_event_stream, es_mpi}
use casita.Stream
use casita.Stream.Add.{put}
use casita.Engine.Defs.{Pair, Result, ok, raised, undefined, sub64}

-- `enum MPIType`.
pub data MpiType : Type 0 where
  mpi_send mpi_recv mpi_collective mpi_sendrecv : MpiType

pub record MpiCommRecord : Type 0 where
  pub mpi_type : MpiType
  pub root_id : ℕ
  pub partner_id : ℕ
  pub tag : ℕ

pub record MpiBlockingCommData : Type 0 where
  pub com_ref : ℕ
  pub send_partner_id : ℕ
  pub recv_partner_id : ℕ
  pub send_tag : ℕ
  pub recv_tag : ℕ

-- `MPIIcommRecord` without the two message buffers. `none` is MPI_REQUEST_NULL, and NULL for a node;
-- the communicator and the tag are `none` while they are not assigned.
pub record MpiIcommRecord : Type 0 where
  pub com_ref : Option ℕ
  pub msg_tag : Option ℕ
  pub request_id : ℕ
  pub request0 : Option ℕ
  pub request1 : Option ℕ
  pub msg_node : Option ℕ
  pub sync_node : Option ℕ

-- `std::map`, in the order of its keys.
abbrev pub RecordMap : Type 0
RecordMap = List (ℕ × MpiIcommRecord)

pub record MpiStream : Type 0 where
  pub base : EventStream
  pub mpi_comm_records : List MpiCommRecord
  pub pending_mpi_comm : MpiBlockingCommData
  pub pending_mpi_request_id : ℕ
  pub mpi_isend_partner : ℕ
  pub pending_requests : List ℕ
  pub mpi_icomm_records : RecordMap

-- The node-specific data of a graph node: NULL, a record, or a list of requests.
pub data NodeData : Type 0 where
  null : NodeData
  icomm_record : ℕ → NodeData
  request_list : List ℕ → NodeData

pub record Nodes : Type 0 where
  pub node : ℕ → Node
  pub node_data : ℕ → NodeData
  pub pairs : ℕ → Pair

unfoldable pub set_data : ℕ → NodeData → Nodes → Nodes
unfolding put
set_data n d w = record w { node_data = put w.node_data n d }

unfoldable pub set_referenced : ℕ → ℕ → Nodes → Nodes
unfolding put
set_referenced n stream_id w = record w {
  node = put w.node n (set_referenced_stream_id (w.node n) stream_id);
}

-- The waiting time of a leave is that since its enter; the pair may lack the enter.
unfoldable pub charge_waiting : ℕ → Nodes → Result Nodes
unfolding put sub64
charge_waiting n w = elim (w.pairs n).first [
  | none ↦ undefined
  | some first ↦ ok (record w {
    node =
        put w.node n
          (set_counter (w.node n) Metric.waiting_time (sub64 (w.node n).time first.time));
  })
]

abbrev pub u32_max : ℕ
u32_max = 4294967295

-- Fields of `pendingMpiComm` that the constructor leaves as they are come from `comm`.
unfoldable pub new_mpi_stream : ℕ → ℕ → String → MpiBlockingCommData → MpiStream
unfolding new_event_stream
new_mpi_stream id parent_id name comm = record {
  base = new_event_stream id parent_id name es_mpi;
  mpi_comm_records = [];
  pending_mpi_comm = record comm { com_ref = u32_max };
  pending_mpi_request_id = u64_max;
  mpi_isend_partner = u64_max;
  pending_requests = [];
  mpi_icomm_records = [];
}

unfoldable pub reset : MpiStream → MpiStream
unfolding Stream.Defs.reset
reset s = record s {
  base = Stream.Defs.reset s.base;
  mpi_comm_records = [];
  pending_mpi_request_id = u64_max;
  mpi_isend_partner = u64_max;
  pending_requests = [];
  mpi_icomm_records = [];
}

unfoldable pub set_pending_mpi_record : MpiType → ℕ → ℕ → ℕ → MpiStream → Result MpiStream
set_pending_mpi_record mpi_collective partner_id root_comm_id tag s = ok (record s {
  pending_mpi_comm = record (s.pending_mpi_comm) {
    com_ref = partner_id;
    send_partner_id = root_comm_id;
  };
})
set_pending_mpi_record mpi_recv partner_id root_comm_id tag s = ok (record s {
  pending_mpi_comm = record (s.pending_mpi_comm) {
    com_ref = root_comm_id;
    recv_partner_id = partner_id;
    recv_tag = tag;
  };
})
set_pending_mpi_record mpi_send partner_id root_comm_id tag s = ok (record s {
  pending_mpi_comm = record (s.pending_mpi_comm) {
    com_ref = root_comm_id;
    send_partner_id = partner_id;
    send_tag = tag;
  };
})
set_pending_mpi_record mpi_sendrecv partner_id root_comm_id tag s = raised

-- The copy of the list, which is cleared.
unfoldable pub get_pending_mpi_records : MpiStream → List MpiCommRecord × MpiStream
get_pending_mpi_records s = (s.mpi_comm_records, record s { mpi_comm_records = [] })

unfoldable pub get_pending_mpi_comm_record : MpiStream → MpiBlockingCommData
get_pending_mpi_comm_record s = s.pending_mpi_comm

-- The operations of the map: `find`, `map[k] = r` and `erase`.
unfoldable pub find_record : ℕ → RecordMap → Option MpiIcommRecord
find_record k [] = none
find_record k ((j, r) ∷ map) = if j == k then some r else find_record k map

unfoldable pub put_record : ℕ → MpiIcommRecord → RecordMap → RecordMap
put_record k r [] = (k, r) ∷ []
put_record k r ((j, q) ∷ map) =
    if j == k
    then (k, r) ∷ map
    else if ltb k j
    then (k, r) ∷ (j, q) ∷ map
    else (j, q) ∷ put_record k r map

unfoldable pub erase_record : ℕ → RecordMap → RecordMap
erase_record k [] = []
erase_record k ((j, q) ∷ map) = if j == k then map else (j, q) ∷ erase_record k map
